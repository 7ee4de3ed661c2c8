-- ===== src/Agent/Files/Upload/Receive.antt =====
-- What a call that returned has left in the temporary file.
use lan_commander.Base.{
  ℕ, zero, suc, ◌≡◌, ◌≢◌, refl, sym, subst, ap, ◌∙◌, Bool, true, false, Option, some, [], ◌∷◌, ◌++◌,
  append-nil, if◌then◌else◌, not, arith, ◌⊎◌, inl, inr, length, nat_eq,
}
use lan_commander.Base.Int.{ℤ, pos, negsuc, pos_part, IsInt64}
use lan_commander.Base.Exec.{ok, pure}
use lan_commander.Base.Exec.Outcome.{ok_bind, ok_refuse_if, ok_must}
use lan_commander.Base.Text.{Text}
use lan_commander.Os.Disk.{Bytes, Node, file, Disk, open_write}
use lan_commander.Os.Disk.Frame.{
  Keeps-flush, Keeps-open_write, Keeps-write_file, Keeps-read_file, Keeps-stat,
}
use lan_commander.Os.Disk.Effect.{kept, write_file_ok, write_at_ok, stat_ok, open_write_ok}
use lan_commander.Agent.Files.Host.{node_size}
use lan_commander.Agent.Files.Upload.{eq_ℤ, begin, continue_upload, write_chunk, store, receive}
use lan_commander.Agent.Files.Upload.Bounds.{splice_end, Accepted, check_bounds_accepts}

pub not-false : (b : Bool) → not b ≡ false → b ≡ true
not-false true h = refl
not-false false h = absurd cc

eq_ℤ-zero : (z : ℤ) → eq_ℤ z (pos 0) ≡ true → z ≡ pos 0
eq_ℤ-zero (pos zero) h = refl
eq_ℤ-zero (pos (suc n)) h = absurd (ground arith)
eq_ℤ-zero (negsuc n) h = absurd (ground arith)

some_inj : {A : Type 0} {x y : A} → some x ≡ some y → x ≡ y
some_inj h = cc

pub file_inj : {x y : Bytes} → some (file x) ≡ some (file y) → x ≡ y
file_inj h = cc

eq_ℤ-pos : (n : ℕ) (z : ℤ) → eq_ℤ (pos n) z ≡ true → n ≡ pos_part z
eq_ℤ-pos n (pos m) h = ground arith
eq_ℤ-pos n (negsuc m) h = ground arith

-- What the temporary file holds before the chunk: nothing for a first one, else as much as the
-- offset tells.
abbrev pub Origin : Option Node → ℤ → Bytes → Type 0
Origin x offset old = (length old ≡ pos_part offset) × ((offset ≡ pos 0) ⊎ (x ≡ some (file old)))

module _ (temp meta : Text) (ne : temp ≢ meta) where
  -- A first chunk finds an empty file.
  begin_ok :
      (total : ℤ) (d t : Disk)
      → begin temp meta total d ≡ (ok tt, t)
      → t.files temp ≡ some (file [])
  unfolding begin
  begin_ok total d t h =
      let (_, d1, e1, h1) = ok_bind _ _ d h in
      kept (Keeps-write_file meta _ ne) (ok_must _ _ _ d1 h1)
      ∙ write_file_ok temp [] d d1 (ok_must _ _ _ d e1)

  -- A later chunk finds a file, or a directory, of the size that its offset tells.
  continue_ok :
      (offset total : ℤ) (d t : Disk)
      → continue_upload temp meta offset total d ≡ (ok tt, t)
      → (n : Node) × (d.files temp ≡ some n)
        × (t.files temp ≡ some n)
        × (node_size n ≡ pos_part offset)
  unfolding continue_upload
  continue_ok offset total d t h =
      let (_, d1, e1, h1) = ok_bind _ _ d h in
      let (_, d2, e2, h2) = ok_bind _ _ d1 h1 in
      let (_, q2) = ok_refuse_if _ _ _ d1 e2 in
      let (n, d3, e3, h3) = ok_bind _ _ d2 h2 in
      let (c, q3) = ok_refuse_if _ _ _ d3 h3 in
      let found = stat_ok temp d2 d3 (ok_must _ _ _ d2 e3) in
      let k1 = kept (Keeps-read_file {q = temp} meta) (ok_must _ _ _ d e1) in
      let k2 = kept (Keeps-stat {q = temp} temp) (ok_must _ _ _ d2 e3) in
      (
        n,
        sym k1 ∙ ap (λ (x : Disk). x.files temp) q2 ∙ sym k2 ∙ found,
        ap (λ (x : Disk). x.files temp) (sym q3) ∙ found,
        eq_ℤ-pos (node_size n) offset (not-false _ c),
      )

  write_chunk_ok :
      (old chunk : Bytes) (d t : Disk)
      → d.files temp ≡ some (file old)
      → write_chunk temp meta chunk (length old) d ≡ (ok tt, t)
      → t.files temp ≡ some (file (old ++ chunk))
  unfolding write_chunk pure
  write_chunk_ok old [] d t e h =
      let same : d ≡ t = cc h in
      ap (λ (y : Disk). y.files temp) (sym same)
      ∙ e
      ∙ ap (λ (b : Bytes). some (file b)) (sym (append-nil old))
  write_chunk_ok old (x ∷ xs) d t e h =
      let (n, d1, e1, h1) = ok_bind _ _ d h in
      let (_, q) = ok_refuse_if _ _ _ d1 h1 in
      ap (λ (y : Disk). y.files temp) (sym q)
      ∙ write_at_ok temp (x ∷ xs) (length old) d d1 old e (ok_must _ _ _ d e1)
      ∙ ap (λ (b : Bytes). some (file b)) (splice_end old (x ∷ xs) (length old) refl)

  -- A chunk at the end of the temporary file is appended to it.
  store_ok :
      (old chunk : Bytes) (d t : Disk)
      → d.files temp ≡ some (file old)
      → store temp meta chunk (length old) d ≡ (ok tt, t)
      → t.files temp ≡ some (file (old ++ chunk))
  unfolding store
  store_ok old chunk d t e h =
      let (_, d1, e1, h1) = ok_bind _ _ d h in
      let (_, d2, e2, h2) = ok_bind _ _ d1 h1 in
      let (_, d3, e3, h3) = ok_bind _ _ d2 h2 in
      let opened = kept (Keeps-open_write {q = temp} temp) (ok_must _ _ _ d e1) in
      let written = write_chunk_ok old chunk d1 d2 (opened ∙ e) e2 in
      kept (Keeps-flush {q = temp}) (ok_must _ _ _ d3 h3)
      ∙ kept (Keeps-flush {q = temp}) (ok_must _ _ _ d2 e3)
      ∙ written

  -- A chunk is stored in a file that opens.
  store_opens :
      (off : ℕ) (chunk : Bytes) (d t : Disk)
      → store temp meta chunk off d ≡ (ok tt, t)
      → (b : Bytes) × (u : Disk) × (open_write temp d ≡ (ok b, u))
  unfolding store
  store_opens off chunk d t h = let (b, u, e, _) = ok_bind _ _ d h in (b, u, ok_must _ _ _ d e)

  opened_ok :
      (first : Bool) (offset total : ℤ) (d t u : Disk) {b : Bytes}
      → eq_ℤ offset (pos 0) ≡ first
      → (if first then begin temp meta total else continue_upload temp meta offset total) d
        ≡ (ok tt, t)
      → open_write temp t ≡ (ok b, u)
      → (t.files temp ≡ some (file b)) × Origin (d.files temp) offset b
  opened_ok true offset total d t u {b} e h o =
      let here = kept (Keeps-open_write {q = temp} temp) o in
      let now : t.files temp ≡ some (file b) = sym here ∙ open_write_ok temp t u o in
      let empty : b ≡ [] = file_inj (sym now ∙ begin_ok total d t h) in
      let zero' = eq_ℤ-zero offset e in
      (now, (ap length empty ∙ sym (ap pos_part zero'), inl zero'))
  opened_ok false offset total d t u {b} e h o =
      let here = kept (Keeps-open_write {q = temp} temp) o in
      let now : t.files temp ≡ some (file b) = sym here ∙ open_write_ok temp t u o in
      let (n, before, after, size) = continue_ok offset total d t h in
      let same : n ≡ file b = some_inj (sym after ∙ now) in
      (now, (ap node_size (sym same) ∙ size, inr (before ∙ ap some same)))

  -- The temporary file of a chunk that was received: what it held before, cut to nothing by a first
  -- chunk, and then the chunk.
  pub receive_ok :
      (chunk : Bytes) (offset total : ℤ) (final : Bool) (d t : Disk)
      → IsInt64 offset
      → IsInt64 total
      → receive temp meta chunk offset total final d ≡ (ok tt, t)
      → Accepted chunk offset total final
        × (old : Bytes) × Origin (d.files temp) offset old
        × (t.files temp ≡ some (file (old ++ chunk)))
  unfolding receive
  receive_ok chunk offset total final d t io it h =
      let (_, d1, e1, h1) = ok_bind _ _ d h in
      let (same, acc) = check_bounds_accepts _ chunk offset total final d d1 io it e1 in
      let (_, d2, e2, h2) = ok_bind _ _ d1 h1 in
      let (b, d3, e3) = store_opens (pos_part offset) chunk d2 t h2 in
      let (now, origin) = opened_ok _ offset total d1 d2 d3 refl e2 e3 in
      (
        acc,
        b,
        subst (λ (x : Disk). Origin (x.files temp) offset b) (sym same) origin,
        store_ok b chunk d2 t now
            (subst (λ (n : ℕ). store temp meta chunk n d2 ≡ (ok tt, t)) (sym (origin.0)) h2),
      )

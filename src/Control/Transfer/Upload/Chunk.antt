-- ===== src/Control/Transfer/Upload/Chunk.antt =====
-- The chunks of a file that is uploaded, and a requester that acknowledges them.
use lan_commander.Base.{
  ℕ, ◌+◌, ◌-◌, ◌≤◌, ◌<◌, ◌≡◌, ◌≢◌, refl, ap, ◌∙◌, Bool, true, false, not, ◌&&◌, some, [], ◌++◌,
  if◌then◌else◌, inl, inr, length, take, slice, take-append-take-drop, arith, list_eq, nat_eq,
  Bool-cases, ◌==◌, ==_iff,
}
use lan_commander.Base.Int.{pos}
use lan_commander.Base.Exec.{ok, pure}
use lan_commander.Base.Exec.Outcome.{bind_ok, must_ok, refuse_if_ok}
use lan_commander.Base.Text.{Text, is_empty}
use lan_commander.Os.Disk.{Bytes, Files}
use lan_commander.Control.Transfer.{
  SendFile, Ack, Requester, World, default_chunk_size, remotely, check_ctx,
}
use lan_commander.Control.Transfer.Download.Served.{calm_world, length-served}
use lan_commander.Control.Transfer.Upload.{check_ack, send_upload_chunk}

abbrev pub acknowledged : SendFile → Ack
acknowledged p = record {
  path = p.path;
  offset = p.offset;
  final = p.final;
  committed = some p.final;
}

module _ {S : Type 0} (digest : Bytes → Text) (requester : Requester S) where
  check_ack_ok :
      (p : SendFile) (o : ℕ) (w : World S)
      → p.offset ≡ pos o
      → check_ack digest requester p (acknowledged p) w ≡ (ok tt, w)
  unfolding check_ack
  check_ack_ok p o w e =
      bind_ok _ _ _ _ _ (refuse_if_ok _ _ _ _ (same_path p.path))
      ∙ bind_ok _ _ _ _ _ (refuse_if_ok _ _ _ _ (ground arith))
      ∙ bind_ok _ _ _ _ _ (refuse_if_ok _ _ _ _ (same_flag p.final))
      ∙ refuse_if_ok _ _ _ _ (and_not p.final)
    where
      and_false : (x : Bool) → (x && false) ≡ false
      and_false true = refl
      and_false false = refl

      same_path : (x : Text) → (not (is_empty x) && not (x == x)) ≡ false
      same_path x =
          ap (λ (z : Bool). not (is_empty x) && not z) ((==_iff x x).1 refl)
          ∙ and_false (not (is_empty x))

      and_not : (x : Bool) → (x && not x) ≡ false
      and_not true = refl
      and_not false = refl

      same_flag :
          (x : Bool)
          → not ((elim x as (λ y. Bool → Bool) [ false ↦ λ b. not b | true ↦ λ b. b ]) x) ≡ false
      same_flag true = refl
      same_flag false = refl

  pub send_ok :
      (p : SendFile) (o : ℕ) (files : Files) (s t : S)
      → p.offset ≡ pos o
      → requester.send_file p s ≡ (ok (some (acknowledged p)), t)
      → send_upload_chunk digest requester p (calm_world files s) ≡ (ok tt, calm_world files t)
  unfolding send_upload_chunk check_ctx remotely pure
  send_ok p o files s t e h =
      bind_ok _ _ _ _ _ refl
      ∙ bind_ok _ _ _ _ _ (must_ok _ _ _ _ _ _ (λ i. ((h i).0, calm_world files (h i).1)))
      ∙ bind_ok _ _ _ _ _ refl
      ∙ check_ack_ok p o _ e

abbrev pub next_chunk : Bytes → ℕ → Bytes
next_chunk b o = slice o (o + default_chunk_size) b

-- The chunk at an offset.
abbrev pub chunk_at : (Bytes → Text) → Text → Text → Bytes → ℕ → SendFile
chunk_at digest remote id b o = record {
  path = remote;
  content = next_chunk b o;
  offset = pos o;
  total_size = pos (length b);
  final = o + length (next_chunk b o) == length b;
  checksum =
      if o + length (next_chunk b o) == length b then digest (take o b ++ next_chunk b o) else [];
  transfer_id = id;
}

pub chunk_final :
    (b : Bytes) (o : ℕ)
    → o ≤ length b
    → length b ≤ o + default_chunk_size
    → o + length (next_chunk b o) ≡ length b
chunk_final b o h all = omega (arith, length-served b o h)

pub chunk_middle :
    (b : Bytes) (o : ℕ)
    → o + default_chunk_size < length b
    → o + length (next_chunk b o) ≡ o + default_chunk_size
chunk_middle b o h = omega (arith, length-served b o (omega arith))

pub chunk_seen : (b : Bytes) (o : ℕ) → take o b ++ next_chunk b o ≡ take (o + default_chunk_size) b
chunk_seen b o =
    take-append-take-drop o (o + default_chunk_size - o) b (o + default_chunk_size) (omega arith)

pub eq_true : (m n : ℕ) → m ≡ n → (m == n) ≡ true
eq_true m n e = (==_iff m n).1 e

pub eq_false : (m n : ℕ) → m ≢ n → (m == n) ≡ false
eq_false m n ne = elim (Bool-cases (m == n)) [ inl e ↦ absurd (ne ((==_iff m n).0 e)) | inr e ↦ e ]

-- A requester that acknowledges the chunks of `b` in turn: in the state `P o` the chunk at `o` is due,
-- and the last one leads to `Q`.
pub record Accepts {S : Type 0} (digest : Bytes → Text) (requester : Requester S) (remote id : Text)
    (b : Bytes) (P : ℕ → S → Type 0) (Q : S → Type 0) : Type 0 where
  pub on_middle :
      (o : ℕ) (s : S)
      → o + default_chunk_size < length b
      → P o s
      → (t : S) × (requester.send_file (chunk_at digest remote id b o) s
          ≡ (ok (some (acknowledged (chunk_at digest remote id b o))), t))
        × P (o + default_chunk_size) t
  pub on_last :
      (o : ℕ) (s : S)
      → o ≤ length b
      → length b ≤ o + default_chunk_size
      → P o s
      → (t : S) × (requester.send_file (chunk_at digest remote id b o) s
          ≡ (ok (some (acknowledged (chunk_at digest remote id b o))), t))
        × Q t

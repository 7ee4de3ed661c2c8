-- ===== src/Control/Transfer/Download/Served.antt =====
-- The chunks that an agent serves a file in, and one step of a download on a disk that refuses nothing.
use lan_commander.Base.{
  ℕ, ◌+◌, ◌-◌, ◌≤◌, ◌<◌, ◌≡◌, ◌≢◌, refl, sym, ap, subst, ◌∙◌, false, not, ◌&&◌, ◌||◌, some, [], ◌∷◌,
  if◌then◌else◌, ◌⊎◌, inl, inr, length, leb, drop, slice, length-take, length-drop, arith, list_eq,
  nat_eq, min,
}
use lan_commander.Base.Int.{ℤ, pos, negsuc, ltb_ℤ, ◌+64◌, +64_exact, max_int64}
use lan_commander.Base.Exec.{Result, ok}
use lan_commander.Base.Exec.Outcome.{bind_ok, refuse_if_ok}
use lan_commander.Base.Text.{Text, is_empty}
use lan_commander.Os.Disk.{Bytes, Node, cut, Files, Disk, OsError, Sys, calm_disk, put}
use lan_commander.Agent.Files.Upload.{eq_ℤ}
use lan_commander.Control.Transfer.{Chunk, Requester, World, default_chunk_size, local, remotely}
use lan_commander.Control.Transfer.Download.{Local, check_chunk}

-- An offset at which a file has something to serve: the start, or before its end.
abbrev pub Due : Bytes → ℕ → Type 0
Due b o = (o ≡ 0) ⊎ (o < length b)

pub Due-le : (b : Bytes) (o : ℕ) → Due b o → o ≤ length b
Due-le b o (inl e) = omega arith
Due-le b o (inr h) = omega arith

-- The chunk that the agent's `get_file` answers with.
abbrev pub served : (Bytes → Text) → Bytes → ℕ → Chunk
served digest b o = record {
  content = slice o (o + default_chunk_size) b;
  offset = pos o;
  total_size = pos (length b);
  final = leb (length b) (o + default_chunk_size);
  checksum = if leb (length b) (o + default_chunk_size) then digest b else [];
}

abbrev pub calm_world : {S : Type 0} → Files → S → World S
calm_world files s = record { disk = calm_disk files; remote = s; ctx = [] }

pub local_ok :
    {S A : Type 0} (m : Sys A) (files files' : Files) (s : S) (a : A)
    → m (calm_disk files) ≡ (ok a, calm_disk files')
    → local m (calm_world files s) ≡ (ok a, calm_world files' s)
unfolding local
local_ok m files files' s a e =
    ap (λ (o : Result OsError _ × Disk). (o.0, record { disk = o.1; remote = s; ctx = [] })) e

pub remotely_ok :
    {S A : Type 0} (m : S → Result (Unit {0}) A × S) (files : Files) (s t : S) (a : A)
    → m s ≡ (ok a, t)
    → remotely m (calm_world files s) ≡ (ok a, calm_world files t)
unfolding remotely
remotely_ok m files s t a e =
    ap
      (λ (o : Result (Unit {0}) _ × _).
        (o.0, record { disk = calm_disk files; remote = o.1; ctx = [] }))
      e

pub put_same : (files : Files) (p : Text) (n : Node) → put files p n p ≡ some n
put_same files p n = ground arith

pub put_other : (files : Files) (p q : Text) (n : Node) → q ≢ p → put files p n q ≡ files q
put_other files p q n ne = ground arith

pub cut_other : (files : Files) (p q : Text) → q ≢ p → cut files p q ≡ files q
cut_other files p q ne = ground arith

pub length-served :
    (b : Bytes) (o : ℕ)
    → o ≤ length b
    → length (slice o (o + default_chunk_size) b) ≡ min default_chunk_size (length b - o)
length-served b o h =
    omega (arith, length-take (o + default_chunk_size - o) (drop o b), length-drop o b)

pub eq_ℤ_refl : (n : ℕ) → not (eq_ℤ (pos n) (pos n)) ≡ false
eq_ℤ_refl n = ground arith

module _ {S : Type 0} (l : Local) (requester : Requester S) (b : Bytes)
    (small : length b ≤ max_int64) where
  pub chunk_end :
      (o : ℕ)
      → o ≤ length b
      → pos o +64 pos (length (slice o (o + default_chunk_size) b))
        ≡ pos (min (o + default_chunk_size) (length b))
  chunk_end o h =
      +64_exact o _ (omega (arith, length-served b o h))
      ∙ ap pos (omega (arith, length-served b o h))

  not_past :
      (o : ℕ)
      → o ≤ length b
      → (ltb_ℤ (pos (length b)) (pos 0)
          || ltb_ℤ (pos (length b)) (pos o +64 pos (length (slice o (o + default_chunk_size) b))))
        ≡ false
  not_past o h =
      subst (λ (z : ℤ). (ltb_ℤ (pos (length b)) (pos 0) || ltb_ℤ (pos (length b)) z) ≡ false)
        (sym (chunk_end o h)) (ground arith)

  not_empty :
      (o : ℕ) (c : Bytes)
      → length c ≡ min default_chunk_size (length b - o)
      → (not (leb (length b) (o + default_chunk_size)) && is_empty c) ≡ false
  not_empty o [] e = ground arith
  not_empty o (x ∷ xs) e = ground arith

  sizes :
      (z : ℤ)
      → (z ≡ negsuc 0) ⊎ (z ≡ pos (length b))
      → (not (ltb_ℤ z (pos 0)) && not (eq_ℤ (pos (length b)) z)) ≡ false
  sizes z (inl e) =
      subst (λ (y : ℤ). (not (ltb_ℤ y (pos 0)) && not (eq_ℤ (pos (length b)) y)) ≡ false) (sym e)
        refl
  sizes z (inr e) =
      subst (λ (y : ℤ). (not (ltb_ℤ y (pos 0)) && not (eq_ℤ (pos (length b)) y)) ≡ false) (sym e)
        (ground arith)

  pub check_chunk_ok :
      (o : ℕ) (total : ℤ) (w : World S)
      → o ≤ length b
      → (total ≡ negsuc 0) ⊎ (total ≡ pos (length b))
      → check_chunk l requester (pos o) total (served l.digest b o) w ≡ (ok tt, w)
  unfolding check_chunk
  check_chunk_ok o total w h t =
      bind_ok _ _ _ _ _ (refuse_if_ok _ _ _ _ (eq_ℤ_refl o))
      ∙ bind_ok _ _ _ _ _ (refuse_if_ok _ _ _ _ (ground (arith, length-served b o h)))
      ∙ bind_ok _ _ _ _ _ (refuse_if_ok _ _ _ _ (sizes total t))
      ∙ bind_ok _ _ _ _ _ (refuse_if_ok _ _ _ _ (not_past o h))
      ∙ refuse_if_ok _ _ _ _ (not_empty o _ (length-served b o h))

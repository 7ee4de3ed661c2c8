-- ===== src/Agent/Files/Chunks/Content.antt =====
-- What a chunk that was read holds, and what a chunk that was written leaves.
use lan_commander.Base.{
  ℕ, ◌+◌, ◌-◌, ◌≡◌, refl, sym, ap, ◌∙◌, true, false, ◌&&◌, some, [], arith, if◌then◌else◌, ltb,
  length, ◌==◌, nat_eq, list_eq, drop, slice, length-take, length-drop, take_all, Bool-cases,
  ltb-false, tests, inl, inr,
}
use lan_commander.Base.Int.{ℤ, pos}
use lan_commander.Base.Exec.{Result, ok, err, pure, raise, ◌>>=◌, refuse_if}
use lan_commander.Base.Text.{Text, is_empty}
use lan_commander.Os.Disk.{Bytes, file, calm_disk, Files}
use lan_commander.Base.Exec.Outcome.{bind_ok, catch_ok, refuse_if_ok}
use lan_commander.Agent.Files.Host.Resolve.{resolve_ok}
use lan_commander.Os.Disk.Calm.{stat_calm, open_read_calm, read_at_calm}
use lan_commander.Agent.Files.SafePath.{safe_path}
use lan_commander.Agent.Files.Host.{Host, FileError, beyond_file_size}
use lan_commander.Agent.Files.Chunks.{chunk_size_of, clamp, read_within, read_from, read_file_chunk}

-- What a read of a file gives, by its content alone.
abbrev pub from_answer : Bytes → ℕ → ℕ → Result FileError (Bytes × ℕ)
from_answer b offset size =
    if ltb offset (length b)
    then ok (slice offset (offset + size) b, length b)
    else if length b == 0 && offset == 0
    then ok ([], 0)
    else err beyond_file_size

abbrev pub read_answer : Bytes → ℕ → ℤ → Result FileError (Bytes × ℕ)
read_answer b offset size = from_answer b offset (chunk_size_of size)

-- A read that is cut at the end of the file is the same as one that is not.
slice-clamp :
    (b : Bytes) (offset size : ℕ)
    → slice offset (offset + clamp size (length b - offset)) b ≡ slice offset (offset + size) b
slice-clamp b offset size = elim (Bool-cases (ltb (length b - offset) size)) [
  | inl e ↦ rw e (
      take_all (offset + (length b - offset) - offset) (drop offset b)
        (omega (arith, length-drop offset b))
      ∙ sym (
          take_all (offset + size - offset) (drop offset b)
            (omega (arith, tests, length-drop offset b))))
  | inr e ↦ rw e refl
]

length-slice-clamp :
    (b : Bytes) (offset size : ℕ)
    → length (slice offset (offset + clamp size (length b - offset)) b)
      ≡ clamp size (length b - offset)
length-slice-clamp b offset size = ground (
  arith,
  length-take (offset + clamp size (length b - offset) - offset) (drop offset b),
  length-drop offset b,
)

read_within_calm :
    (safe : Text) (b : Bytes) (offset size : ℕ) (files : Files)
    → files safe ≡ some (file b)
    → read_within safe offset size (length b) (calm_disk files)
      ≡ (ok (slice offset (offset + size) b, length b), calm_disk files)
unfolding read_within pure
read_within_calm safe b offset size files at =
    let n = clamp size (length b - offset) in
    let whole : ltb (length (slice offset (offset + n) b)) n ≡ false =
      ltb-false _ n (omega (arith, length-slice-clamp b offset size)) in
    bind_ok _ _ _ _ _ (catch_ok _ _ _ _ _ (read_at_calm safe files b offset n at))
    ∙ bind_ok _ _ _ _ _
        (refuse_if_ok _ _ _ _ (ap (λ x. x && is_empty (slice offset (offset + n) b)) whole))
    ∙ ap (λ (x : Bytes). (ok (x, length b), calm_disk files)) (slice-clamp b offset size)

read_from_calm :
    (safe : Text) (b : Bytes) (offset size : ℕ) (files : Files)
    → files safe ≡ some (file b)
    → read_from safe offset size (length b) (calm_disk files)
      ≡ (from_answer b offset size, calm_disk files)
unfolding read_from refuse_if raise pure ◌>>=◌
read_from_calm safe b offset size files at = elim (Bool-cases (ltb (length b) offset)) [
  | inl beyond ↦ ground arith
  | inr within ↦ elim (Bool-cases (offset == length b)) [
    | inl end ↦ ground arith
    | inr inside ↦
        let e = read_within_calm safe b offset size files at in
        let lt : ltb offset (length b) ≡ true = ground arith in rw (within, inside, e, lt) refl
  ]
]

-- On a disk that refuses nothing, a read of a file gives the bytes from the offset on, as many as were
-- asked for or as there are, and the file's size. At the end of the file and beyond it is an error,
-- unless the file is empty and read from its start. The disk stays as it was.
pub read_file_chunk_lem :
    (h : Host) (path safe : Text) (b : Bytes) (offset : ℕ) (size : ℤ) (files : Files)
    → safe_path h.cwd path ≡ ok safe
    → files safe ≡ some (file b)
    → read_file_chunk h path (pos offset) size (calm_disk files)
      ≡ (read_answer b offset size, calm_disk files)
unfolding read_file_chunk
read_file_chunk_lem h path safe b offset size files e at =
    bind_ok _ _ _ _ _ (refuse_if_ok _ _ _ _ (ltb-false (offset + 0) 0 (omega arith)))
    ∙ bind_ok _ _ _ _ _ (resolve_ok h path safe _ e)
    ∙ bind_ok _ _ _ _ _ (catch_ok _ _ _ _ _ (open_read_calm safe files (file b) at))
    ∙ bind_ok _ _ _ _ _ (catch_ok _ _ _ _ _ (stat_calm safe files (file b) at))
    ∙ read_from_calm safe b offset (chunk_size_of size) files at

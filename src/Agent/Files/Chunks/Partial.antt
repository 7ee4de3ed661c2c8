-- ===== src/Agent/Files/Chunks/Partial.antt =====
-- What a read of a chunk gives if it returns, whatever the system did.
use lan_commander.Base.{
  ℕ, ◌≡◌, refl, sym, ap, subst, ◌∙◌, Bool, true, false, some, [], if◌then◌else◌, length, ◌==◌,
  nat_eq, drop,
}
use lan_commander.Base.Int.{ℤ, pos}
use lan_commander.Base.Exec.{ok, pure, raise}
use lan_commander.Base.Exec.Outcome.{ok_bind, ok_refuse_if, ok_catch-raise}
use lan_commander.Base.Text.{Text}
use lan_commander.Os.Disk.{Bytes, Node, file, Disk}
use lan_commander.Os.Disk.Frame.{Keeps-open_read, Keeps-stat}
use lan_commander.Os.Disk.Effect.{Begins, kept, stat_ok, read_at_ok}
use lan_commander.Agent.Files.SafePath.{safe_path}
use lan_commander.Agent.Files.Host.{Host, beyond_file_size, node_size}
use lan_commander.Agent.Files.Host.Resolve.{resolve_ok}
use lan_commander.Agent.Files.Chunks.{chunk_size_of, read_within, read_from, read_file_chunk}

-- The bytes that follow the offset, and the size of the file.
abbrev pub Answers : Bytes → ℕ → Bytes → ℕ → Type 0
Answers b o content total = (total ≡ length b) × Begins b o content

module _ (safe : Text) (b : Bytes) where
  read_within_ok :
      (o size : ℕ) (d t : Disk) (content : Bytes) (total : ℕ)
      → d.files safe ≡ some (file b)
      → read_within safe o size (length b) d ≡ (ok (content, total), t)
      → Answers b o content total × (t.files safe ≡ d.files safe)
  unfolding read_within pure
  read_within_ok o size d t content total e h =
      let ((buf, broken), d1, e1, h1) = ok_bind _ _ d h in
      let (_, d2, e2, h2) = ok_bind _ _ d1 h1 in
      let (files1, begins) = read_at_ok safe o _ d d1 b buf e (ok_catch-raise _ _ d e1) in
      let (_, same) = ok_refuse_if _ _ _ d1 e2 in
      let content_is : buf ≡ content = cc h2 in
      let total_is : length b ≡ total = cc h2 in
      let last : d2 ≡ t = cc h2 in
      (
        (sym total_is, subst (Begins b o) content_is begins),
        ap (λ (x : Disk). x.files safe) (sym (same ∙ last)) ∙ ap (λ f. f safe) files1,
      )

  read_from_ok :
      (o size : ℕ) (d t : Disk) (content : Bytes) (total : ℕ)
      → d.files safe ≡ some (file b)
      → read_from safe o size (length b) d ≡ (ok (content, total), t)
      → Answers b o content total × (t.files safe ≡ d.files safe)
  unfolding read_from pure raise
  read_from_ok o size d t content total e h =
      let (_, d1, e1, h1) = ok_bind _ _ d h in
      let (_, same) = ok_refuse_if _ _ _ d e1 in
      let here : d1.files safe ≡ some (file b) = ap (λ (x : Disk). x.files safe) (sym same) ∙ e in
      let (a, there) = go (o == length b) d1 here h1 in
      (a, there ∙ ap (λ (x : Disk). x.files safe) (sym same))
    where
      at_end :
          (empty : Bool) (d : Disk)
          → (if empty then pure {A = Bytes × ℕ} ([], length b) else raise beyond_file_size) d
            ≡ (ok (content, total), t)
          → Answers b o content total × (t.files safe ≡ d.files safe)
      at_end true d q =
          let nil : [] ≡ content = cc q in
          let last : d ≡ t = cc q in
          (
            ((cc q), subst (Begins b o) nil (drop o b, refl)),
            ap (λ (x : Disk). x.files safe) (sym last),
          )
      at_end false d q = absurd cc

      go :
          (end : Bool) (d : Disk)
          → d.files safe ≡ some (file b)
          → (if end
                then (if length b == 0
                    then pure {A = Bytes × ℕ} ([], length b)
                    else raise beyond_file_size)
                else read_within safe o size (length b))
              d
            ≡ (ok (content, total), t)
          → Answers b o content total × (t.files safe ≡ d.files safe)
      go true d e q = at_end (length b == 0) d q
      go false d e q = read_within_ok o size d t content total e q

-- A read that returned gives bytes that follow the offset, none perhaps, and the file's size.
pub read_file_chunk_ok :
    (h : Host) (path safe : Text) (b content : Bytes) (o total : ℕ) (size : ℤ) (d t : Disk)
    → safe_path h.cwd path ≡ ok safe
    → d.files safe ≡ some (file b)
    → read_file_chunk h path (pos o) size d ≡ (ok (content, total), t)
    → Answers b o content total × (t.files safe ≡ d.files safe)
unfolding read_file_chunk
read_file_chunk_ok h path safe b content o total size d t resolves there run =
    let (_, d1, e1, h1) = ok_bind _ _ d run in
    let (_, same) = ok_refuse_if _ _ _ d e1 in
    let here : d1.files safe ≡ d.files safe = ap (λ (x : Disk). x.files safe) (sym same) in
    let (s, d2, e2, h2) = ok_bind _ _ d1 h1 in
    let s_is : s ≡ safe = cc (sym e2 ∙ resolve_ok h path safe d1 resolves) in
    let d_is : d2 ≡ d1 = cc (sym e2 ∙ resolve_ok h path safe d1 resolves) in
    let (_, d3, e3, h3) = ok_bind _ _ d2 h2 in
    let (n, d4, e4, h4) = ok_bind _ _ d3 h3 in
    let opened = ok_catch-raise _ _ d2 e3 in
    let stated = ok_catch-raise _ _ d3 e4 in
    let found : d4.files safe ≡ d.files safe =
      subst (λ (p : Text). d4.files safe ≡ d3.files safe) s_is
        (kept (Keeps-stat {q = safe} s) stated)
      ∙ kept (Keeps-open_read {q = safe} s) opened
      ∙ ap (λ (x : Disk). x.files safe) d_is
      ∙ here in
    let node_is : n ≡ file b =
      cc (sym (stat_ok s d3 d4 stated) ∙ ap d4.files s_is ∙ found ∙ there) in
    let (a, last) = read_from_ok safe b o _ d4 t content total (found ∙ there) (
      subst (λ (x : _). read_from x o (chunk_size_of size) (length b) d4 ≡ (ok (content, total), t))
        s_is
        (subst
          (λ (x : Node).
            read_from s o (chunk_size_of size) (node_size x) d4 ≡ (ok (content, total), t))
          node_is h4)) in
    (a, last ∙ found)

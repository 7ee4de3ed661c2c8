-- ===== src/Agent/Files/Listing/Pages.antt =====
-- The pages of a directory, one after another.
use lan_commander.Base.{
  ℕ, zero, suc, ◌+◌, ◌-◌, ◌≤◌, ◌<◌, ◌≡◌, refl, sym, ap, subst, ◌∙◌, Bool, true, false, not, Option,
  none, some, List, [], ◌∷◌, ◌++◌, if◌then◌else◌, ltb, length, slice, take, drop, min, arith,
  take-append-take-drop, Bool-cases, ltb-false, tests, take_all,
}
use lan_commander.Base.Int.{ℤ, pos, pos_part, ltb_ℤ, leb_ℤ}
use lan_commander.Base.Exec.{ok, pure}
use lan_commander.Base.Exec.Outcome.{bind_ok, catch_ok, refuse_if_ok}
use lan_commander.Os.Disk.Calm.{stat_calm, read_dir_calm}
use lan_commander.Agent.Files.Host.Resolve.{resolve_ok}
use lan_commander.Base.Text.{Text}
use lan_commander.Os.Disk.{FileInfo, DirItem, directory, Files, calm_disk}
use lan_commander.Agent.Files.SafePath.{safe_path}
use lan_commander.Agent.Files.Host.{Host}
use lan_commander.Agent.Files.Listing.{
  DirEntry, max_dir_entries, limit_of, page_start, page_end, describe, keep, entry_of, page,
  list_dir,
}

-- The page's limit is between 1 and the maximum.
pub limit_of_bounds : (limit : ℤ) → (1 ≤ limit_of limit) × (limit_of limit ≤ max_dir_entries)
limit_of_bounds (pos n) = (ground arith, ground arith)
limit_of_bounds (lan_commander.Base.Int.negsuc n) = (ground arith, ground arith)

keep-append :
    (safe : Text) (x : DirItem) (i : Option FileInfo) (xs ys zs : List DirEntry)
    → zs ≡ xs ++ ys
    → keep safe x i zs ≡ keep safe x i xs ++ ys
keep-append safe x none xs ys zs e = e
keep-append safe x (some fi) xs ys zs e = ap (◌∷◌ (entry_of safe x fi)) e

describe-append :
    (safe : Text) (xs ys : List DirItem)
    → describe safe (xs ++ ys) ≡ describe safe xs ++ describe safe ys
unfolding describe
describe-append safe [] ys = refl
describe-append safe (x ∷ xs) ys =
    keep-append safe x x.info (describe safe xs) (describe safe ys) (describe safe (xs ++ ys))
      (describe-append safe xs ys)

-- A page and what was listed before it.
pub listed-page :
    (safe : Text) (items : List DirItem) (offset limit : ℕ)
    → offset ≤ length items
    → let p = page safe items offset limit in
      describe safe (take offset items) ++ p.entries ≡ describe safe (take p.next_offset items)
unfolding page
listed-page safe items offset limit h =
    let n = length items in
    let start : page_start offset n ≡ offset = ground arith in
    let pieces : take offset items
          ++ slice (page_start offset n) (page_end (page_start offset n) limit n) items
        ≡ take (page_end (page_start offset n) limit n) items =
      rw start (
        take-append-take-drop offset (page_end offset limit n - offset) items
          (page_end offset limit n) (ground arith)) in
    sym (describe-append safe (take offset items) _) ∙ ap (describe safe) pieces

length-keep :
    (safe : Text) (x : DirItem) (i : Option FileInfo) (xs : List DirEntry) (n : ℕ)
    → length xs ≤ n
    → length (keep safe x i xs) ≤ suc n
length-keep safe x none xs n h = omega arith
length-keep safe x (some fi) xs n h = omega arith

-- There are never more entries than items.
pub length-describe :
    (safe : Text) (items : List DirItem) → length (describe safe items) ≤ length items
unfolding describe
length-describe safe [] = omega arith
length-describe safe (x ∷ xs) =
    length-keep safe x x.info (describe safe xs) (length xs) (length-describe safe xs)

-- On a disk that refuses nothing, a listing gives the page of the directory's items.
pub list_dir_calm :
    (h : Host) (path safe : Text) (z : ℕ) (items : List DirItem) (offset : ℕ) (limit : ℤ)
    (files : Files)
    → safe_path h.cwd path ≡ ok safe
    → files safe ≡ some (directory z items)
    → list_dir h path (pos offset) limit (calm_disk files)
      ≡ (ok (page safe items offset (limit_of limit)), calm_disk files)
unfolding list_dir pure
list_dir_calm h path safe z items offset limit files e at =
    bind_ok _ _ _ _ _ (resolve_ok h path safe _ e)
    ∙ bind_ok _ _ _ _ _ (refuse_if_ok _ _ _ _ (ltb-false (offset + 0) 0 (omega arith)))
    ∙ bind_ok _ _ _ _ _ (catch_ok _ _ _ _ _ (stat_calm safe files (directory z items) at))
    ∙ bind_ok _ _ _ _ _ (refuse_if_ok _ _ _ _ refl)
    ∙ bind_ok _ _ _ _ _ (catch_ok _ _ _ _ _ (read_dir_calm safe files z items at))

-- ===== src/Control/Listing.antt =====
-- `listDirPages` of control-center/app.go. A request is any action that may fail; the payload is the
-- agent's, whose Go types the two programs each have a copy of.
pub mod Complete
mod Tests
use lan_commander.Base.{
  ℕ, zero, suc, Bool, true, false, not, ◌||◌, Option, none, some, List, ◌++◌, if◌then◌else◌, ltb,
  leb, length,
}
use lan_commander.Base.Exec.{Exec, pure, ◌>>=◌}
use lan_commander.Agent.Files.Listing.{DirContents}

abbrev pub list_dir_page_size : ℕ
list_dir_page_size = 500

abbrev pub max_listed_entries : ℕ
max_listed_entries = 5000

-- maxListedEntries / listDirPageSize + 2
abbrev pub max_list_dir_request : ℕ
max_list_dir_request = 12

abbrev pub merge : Option DirContents → DirContents → DirContents
merge none page = page
merge (some merged) page = record {
  path = merged.path;
  entries = merged.entries ++ page.entries;
  total = page.total;
  next_offset = page.next_offset;
  has_more = page.has_more;
}

-- The loop ends after this page.
abbrev pub is_last : ℕ → DirContents → DirContents → Bool
is_last offset page merged =
    not page.has_more
    || leb page.next_offset offset
    || leb max_listed_entries (length merged.entries)

module _ {E S : Type 0} (ask : ℕ → ℕ → Exec E S DirContents) where
  -- The `for` loop, with so many requests left. `none` is the nil pointer.
  unfoldable pub merge_pages : ℕ → Option DirContents → ℕ → Exec E S (Option DirContents)
  unfolding ◌>>=◌
  merge_pages zero merged offset = pure merged
  merge_pages (suc requests) merged offset = do
    page ← ask offset list_dir_page_size
    let next = merge merged page
    let rest = merge_pages requests (some next) page.next_offset
    if is_last offset page next then pure (some next) else rest

abbrev pub correct_total : Option DirContents → Option DirContents
correct_total none = none
correct_total (some merged) = some (record {
  path = merged.path;
  entries = merged.entries;
  total = if ltb merged.total (length merged.entries) then length merged.entries else merged.total;
  next_offset = merged.next_offset;
  has_more = merged.has_more;
})

unfoldable pub list_dir_pages :
    {E S : Type 0} → (ℕ → ℕ → Exec E S DirContents) → Exec E S (Option DirContents)
list_dir_pages ask = do
  merged ← merge_pages ask max_list_dir_request none 0
  pure (correct_total merged)

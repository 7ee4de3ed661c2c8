-- ===== src/Control/Listing/Complete.antt =====
-- The listing of a directory, by both programs together.
use lan_commander.Base.{
  ℕ, zero, suc, ◌+◌, ◌*◌, ◌≤◌, ◌<◌, ◌≡◌, refl, sym, ap, subst, ◌∙◌, Bool, true, false, not, ◌||◌,
  Option, none, some, List, ◌++◌, if◌then◌else◌, ltb, leb, length, take, take_all, arith,
  Bool-cases, length-take, ltb-false, inl, inr,
}
use lan_commander.Base.Int.{pos}
use lan_commander.Base.Exec.{Exec, ok, pure}
use lan_commander.Base.Exec.Outcome.{bind_ok}
use lan_commander.Base.Text.{Text}
use lan_commander.Os.Disk.{DirItem, directory, Files, calm_disk}
use lan_commander.Agent.Files.SafePath.{safe_path}
use lan_commander.Agent.Files.Host.{Host, Op}
use lan_commander.Agent.Files.Listing.{DirContents, describe, page, list_dir}
use lan_commander.Agent.Files.Listing.Pages.{listed-page, length-describe, list_dir_calm}
use lan_commander.Control.Listing.{
  list_dir_page_size, max_listed_entries, max_list_dir_request, merge, is_last, merge_pages,
  list_dir_pages,
}

-- The answer of the loop: the whole directory.
abbrev pub Whole : Text → List DirItem → DirContents → Type 0
Whole safe items c =
    (c.entries ≡ describe safe items) × (c.total ≡ length items) × (c.has_more ≡ false)

-- What is merged so far.
abbrev SoFar : Text → List DirItem → ℕ → Option DirContents → Type 0
SoFar safe items offset none = offset ≡ 0
SoFar safe items offset (some m) = m.entries ≡ describe safe (take offset items)

merge-total : (m : Option DirContents) (p : DirContents) → (merge m p).total ≡ p.total
merge-total none p = refl
merge-total (some m) p = refl

merge-has_more : (m : Option DirContents) (p : DirContents) → (merge m p).has_more ≡ p.has_more
merge-has_more none p = refl
merge-has_more (some m) p = refl

page_more :
    (safe : Text) (items : List DirItem) (offset limit : ℕ)
    → offset ≤ length items
    → (page safe items offset limit).has_more ≡ true
    → ((page safe items offset limit).next_offset ≡ offset + limit)
      × (offset + limit < length items)
unfolding page
page_more safe items offset limit h more = (ground arith, ground arith)

page_done :
    (safe : Text) (items : List DirItem) (offset limit : ℕ)
    → offset ≤ length items
    → (page safe items offset limit).has_more ≡ false
    → (page safe items offset limit).next_offset ≡ length items
unfolding page
page_done safe items offset limit h more = ground arith

page-total :
    (safe : Text) (items : List DirItem) (offset limit : ℕ)
    → (page safe items offset limit).total ≡ length items
unfolding page
page-total safe items offset limit = refl

merge-entries :
    (safe : Text) (items : List DirItem) (offset : ℕ) (merged : Option DirContents)
    → offset ≤ length items
    → SoFar safe items offset merged
    → let p = page safe items offset list_dir_page_size in
      (merge merged p).entries ≡ describe safe (take p.next_offset items)
unfolding page describe
merge-entries safe items offset none h s =
    subst
      (λ (o : ℕ).
        (page safe items o list_dir_page_size).entries
        ≡ describe safe (take (page safe items o list_dir_page_size).next_offset items))
      (sym s) (listed-page safe items 0 list_dir_page_size (omega arith))
merge-entries safe items offset (some m) h s =
    ap (λ e. e ++ (page safe items offset list_dir_page_size).entries) s
    ∙ listed-page safe items offset list_dir_page_size h

module _ {E S : Type 0} (ask : ℕ → ℕ → Exec E S DirContents) (safe : Text) (items : List DirItem)
    (s : S)
    (answers : (o : ℕ)
      → ask o list_dir_page_size s ≡ (ok (page safe items o list_dir_page_size), s))
    (few : length items ≤ max_listed_entries) where
  -- One round of the loop.
  merge_pages_round :
      (requests : ℕ) (merged : Option DirContents) (offset : ℕ) (last : Bool)
      → let p = page safe items offset list_dir_page_size in
        is_last offset p (merge merged p) ≡ last
        → merge_pages ask (suc requests) merged offset s ≡ (
            if last
            then (ok (some (merge merged p)), s)
            else merge_pages ask requests (some (merge merged p)) p.next_offset s)
  unfolding merge_pages pure
  merge_pages_round requests merged offset last e =
      bind_ok (ask offset list_dir_page_size)
        (λ q.
          if is_last offset q (merge merged q)
          then pure (some (merge merged q))
          else merge_pages ask requests (some (merge merged q)) q.next_offset)
        s _ s (answers offset)
      ∙ ap
          (λ (b : Bool).
            (if b
                then pure (some (merge merged (page safe items offset list_dir_page_size)))
                else merge_pages ask requests
                    (some (merge merged (page safe items offset list_dir_page_size)))
                    (page safe items offset list_dir_page_size).next_offset)
              s)
          e
      ∙ either last
    where
      m : Option DirContents
      m = some (merge merged (page safe items offset list_dir_page_size))

      o : ℕ
      o = (page safe items offset list_dir_page_size).next_offset

      either :
          (b : Bool)
          → (if b then pure m else merge_pages ask requests m o) s
            ≡ (if b then (ok m, s) else merge_pages ask requests m o s)
      either true = refl
      either false = refl

  merge_pages-Whole :
      (requests : ℕ) (merged : Option DirContents) (offset : ℕ)
      → offset ≤ length items
      → length items ≤ offset + requests * list_dir_page_size
      → 1 ≤ requests
      → SoFar safe items offset merged
      → (c : DirContents) × (merge_pages ask requests merged offset s ≡ (ok (some c), s))
        × Whole safe items c
  merge_pages-Whole zero merged offset h room one so = absurd (omega arith)
  merge_pages-Whole (suc requests) merged offset h room one so = elim (Bool-cases p.has_more) [
    | inl more ↦
        let (next, inside) = page_more safe items offset list_dir_page_size h more in
        let short : length m.entries < max_listed_entries = omega (
          arith,
          ap length entries,
          length-describe safe (take p.next_offset items),
          length-take p.next_offset items,
        ) in
        let goes_on : is_last offset p m ≡ false = ground arith in
        let (c, run, whole) =
          merge_pages-Whole requests (some m) p.next_offset (omega arith) (omega arith)
            (omega arith) entries in
        (c, merge_pages_round requests merged offset false goes_on ∙ run, whole)
    | inr done ↦
        let stops : is_last offset p m ≡ true =
          ap (λ x. not x || leb p.next_offset offset || leb max_listed_entries (length m.entries))
            done in
        (
          m,
          merge_pages_round requests merged offset true stops,
          (
            entries
                ∙ ap (describe safe) (
                    take_all p.next_offset items
                      (omega (arith, page_done safe items offset list_dir_page_size h done))),
            merge-total merged p ∙ page-total safe items offset list_dir_page_size,
            merge-has_more merged p ∙ done,
          ),
        )
  ]
    where
      p : DirContents
      p = page safe items offset list_dir_page_size

      m : DirContents
      m = merge merged p

      entries : m.entries ≡ describe safe (take p.next_offset items)
      entries = merge-entries safe items offset merged h so

-- The operator's listing of a directory with at most 5000 items, on an agent whose system refuses
-- nothing, is the whole directory: every item whose details can be read, once, in the directory's
-- order, with the number of items as its total and nothing left to ask for.
pub list_dir_pages-Whole :
    (h : Host) (path safe : Text) (z : ℕ) (items : List DirItem) (files : Files)
    → safe_path h.cwd path ≡ ok safe
    → files safe ≡ some (directory z items)
    → length items ≤ max_listed_entries
    → (c : DirContents) × (list_dir_pages (λ o l. list_dir h path (pos o) (pos l)) (calm_disk files)
        ≡ (ok (some c), calm_disk files))
      × Whole safe items c
unfolding list_dir_pages pure
list_dir_pages-Whole h path safe z items files e at few =
    let ask : ℕ → ℕ → Op DirContents = λ o l. list_dir h path (pos o) (pos l) in
    let (c, run, (entries, total, more)) =
      merge_pages-Whole ask safe items (calm_disk files)
        (λ o. list_dir_calm h path safe z items o (pos list_dir_page_size) files e at) few
        max_list_dir_request none 0 (omega arith) (omega arith) (omega arith) refl in
    let fits : ltb c.total (length c.entries) ≡ false =
      ltb-false _ _ (omega (arith, ap length entries, total, length-describe safe items)) in
    (
      c,
      bind_ok _ _ _ _ _ run
          ∙ ap
              (λ (n : ℕ). (
                ok (
                    some (record {
                      path = c.path;
                      entries = c.entries;
                      total = n;
                      next_offset = c.next_offset;
                      has_more = c.has_more;
                    })),
                calm_disk files,
              ))
              (ap (λ b. if b then length c.entries else c.total) fits),
      (entries, total, more),
    )

-- ===== src/Control/Audit/Recent.antt =====
-- The ring buffer of the audit trail as a window on everything that was logged.
use lan_commander.Base.{
  subst, ◌⊎◌, drop_all, Bool-cases, leb→le, inl, inr, ℕ, zero, suc, ◌+◌, ◌-◌, ◌≤◌, ◌<◌, ◌≡◌, refl,
  ap, ◌∙◌, sym, true, false, none, Bool, List, [], ◌∷◌, ◌++◌, map, length, drop, arith,
  if◌then◌else◌, leb, drop-drop, length-append, length-drop, ◌&&◌,
}
use lan_commander.Base.Int.{ℤ, pos, ◌+64◌}
use lan_commander.Control.Audit.{
  Message, Entry, Inserted, insert_failed, Database, Logger, open_db, close, get_recent, Call,
  log_call, clear_call, close_call, open_call, call, calls, logged, logged_by, last, clamp, push,
  with_status, record_entry, get_recent_from_memory, new_logger_with_capacity, number,
}

module _ {ℓ} {A : Type ℓ} where
  drop-append : (k : ℕ) (xs ys : List A) → k ≤ length xs → drop k (xs ++ ys) ≡ drop k xs ++ ys
  drop-append zero xs ys h = refl
  drop-append (suc k) [] ys h = elim h [ ]
  drop-append (suc k) (x ∷ xs) ys h = drop-append k xs ys (omega arith)

  full : (n : ℕ) (xs : List A) (x : A) → n ≤ length xs → push n xs x ≡ drop 1 xs ++ (x ∷ [])
  full n xs x h = ground arith

  room : (n : ℕ) (xs : List A) (x : A) → length xs < n → push n xs x ≡ xs ++ (x ∷ [])
  room n xs x h = ground arith

  -- The window moves on by one item.
  push-last : (n : ℕ) (xs : List A) (x : A) → 0 < n → push n (last n xs) x ≡ last n (xs ++ (x ∷ []))
  push-last n xs x h = elim (Bool-cases (leb n (length xs))) [
    | inl t ↦
        let le : n ≤ length xs = leb→le n (length xs) t in
        let k : length (xs ++ (x ∷ [])) - n ≡ (length xs - n) + 1 =
          omega (arith, length-append xs (x ∷ [])) in
        let fit : n ≤ length (last n xs) = omega (arith, length-drop (length xs - n) xs) in
        rw
          (
            full n (last n xs) x fit,
            k,
            drop-drop 1 (length xs - n) xs,
            drop-append (length xs - n + 1) xs (x ∷ []) (omega arith),
          )
          refl
    | inr f ↦
        let gt : length xs < n = ground arith in
        let none_left : length xs - n ≡ 0 = omega arith in
        let none_left' : length (xs ++ (x ∷ [])) - n ≡ 0 =
          omega (arith, length-append xs (x ∷ [])) in
        rw (none_left, none_left', room n xs x gt) refl
  ]

  -- A window of a window.
  last-last : (n m : ℕ) (xs : List A) → n ≤ m → last n (last m xs) ≡ last n xs
  last-last n m xs h =
      let e : length xs - m + (length (last m xs) - n) ≡ length xs - n =
        omega (arith, length-drop (length xs - m) xs) in
      drop-drop (length (last m xs) - n) (length xs - m) xs ∙ rw e refl

module _ {ℓ κ} {A : Type ℓ} {B : Type κ} (f : A → B) where
  pub length-map : (xs : List A) → length (map f xs) ≡ length xs
  length-map [] = refl
  length-map (x ∷ xs) = ap suc (length-map xs)

  pub map-drop : (n : ℕ) (xs : List A) → map f (drop n xs) ≡ drop n (map f xs)
  map-drop zero xs = refl
  map-drop (suc n) [] = refl
  map-drop (suc n) (x ∷ xs) = map-drop n xs

  pub map-append : (xs ys : List A) → map f (xs ++ ys) ≡ map f xs ++ map f ys
  map-append [] ys = refl
  map-append (x ∷ xs) ys = ap (◌∷◌ (f x)) (map-append xs ys)

  pub map-last : (n : ℕ) (xs : List A) → map f (last n xs) ≡ last n (map f xs)
  map-last n xs = rw (map-drop (length xs - n) xs, length-map xs) refl

  map-push : (n : ℕ) (xs : List A) (x : A) → map f (push n xs x) ≡ push n (map f xs) (f x)
  map-push n xs x =
      ground (
        arith,
        length-map xs,
        map-append xs (x ∷ []),
        map-drop 1 xs,
        map-append (drop 1 xs) (x ∷ []),
      )

abbrev pub contents : List Entry → List Message
contents = map (λ e. e.content)

-- The logger remembers the last messages of `h`.
record Remembers (capacity : ℕ) (h : List Message) (l : Logger) : Type 0 where
  capacity_is : l.capacity ≡ capacity
  positive : 0 < capacity
  window : contents l.entries ≡ last capacity h

push-Remembers :
    (capacity : ℕ) (h : List Message) (l : Logger) (r : Inserted) (m : Message)
    → Remembers capacity h l
    → Remembers capacity (h ++ (m ∷ [])) (record_entry r m l)
push-Remembers capacity h l r m k = record {
  capacity_is = k.capacity_is;
  positive = k.positive;
  window =
      let entry : Entry = record {
        id = (number r l.next_id (l.next_id +64 pos 1)).0;
        content = m;
      } in
      map-push (λ (e : Entry). e.content) l.capacity l.entries entry
      ∙ rw (k.capacity_is, k.window) (push-last capacity h m k.positive);
}

same_entries :
    (capacity : ℕ) (h : List Message) (l l' : Logger)
    → Remembers capacity h l
    → l'.capacity ≡ l.capacity
    → l'.entries ≡ l.entries
    → Remembers capacity h l'
same_entries capacity h l l' k c e = record {
  capacity_is = c ∙ k.capacity_is;
  positive = k.positive;
  window = ap contents e ∙ k.window;
}

cleared : (capacity : ℕ) → last {A = Message} capacity [] ≡ []
cleared capacity = drop_all (0 - capacity) [] (omega arith)

new-Remembers :
    (capacity : ℤ) → let l = new_logger_with_capacity capacity in Remembers l.capacity [] l
unfolding new_logger_with_capacity
new-Remembers capacity = record {
  capacity_is = refl;
  positive = ground arith;
  window = sym (cleared (new_logger_with_capacity capacity).capacity);
}

module _ {S : Type 0} (database : Database S) where
  either :
      (P : Logger → Type 0) (b : Bool) (v w : Logger × S) → P v.0 → P w.0 → P (if b then v else w).0
  either P true v w x y = x
  either P false v w x y = y

  call-Remembers :
      (capacity : ℕ) (h : List Message) (c : Call) (w : Logger × S)
      → Remembers capacity h w.0
      → Remembers capacity (logged_by c h) (call database c w).0
  unfolding call
  call-Remembers capacity h (log_call m) (l, s) k =
      let message = with_status m in
      let (result, t) = database.insert message s in
      either (Remembers capacity (h ++ (message ∷ []))) (l.db_enabled && l.db)
        (record_entry result message l, t) (record_entry insert_failed message l, s)
        (push-Remembers capacity h l result message k)
        (push-Remembers capacity h l insert_failed message k)
  call-Remembers capacity h clear_call (l, s) k = record {
    capacity_is = k.capacity_is;
    positive = k.positive;
    window = sym (cleared capacity);
  }
  call-Remembers capacity h close_call (l, s) k =
      same_entries capacity h l (close l) k (ground arith) (ground arith)
  call-Remembers capacity h (open_call o p) (l, s) k =
      same_entries capacity h l (open_db o p l).1 k (ground arith) (ground arith)

  calls-Remembers :
      (capacity : ℕ) (h : List Message) (cs : List Call) (w : Logger × S)
      → Remembers capacity h w.0
      → Remembers capacity (logged cs h) (calls database cs w).0
  unfolding calls
  calls-Remembers capacity h [] w k = k
  calls-Remembers capacity h (c ∷ cs) w k =
      calls-Remembers capacity (logged_by c h) cs (call database c w)
        (call-Remembers capacity h c w k)

  -- GetRecent does not answer from the database.
  abbrev pub Unavailable : ℕ → Logger × S → Type 0
  Unavailable n w = ((w.0.db_enabled && w.0.db) ≡ false) ⊎ (database.select n w.1 ≡ none)

  from_memory :
      (limit : ℤ) (l : Logger) (s : S)
      → Unavailable (clamp l.capacity limit) (l, s)
      → get_recent database limit (l, s) ≡ get_recent_from_memory (clamp l.capacity limit) l.entries
  unfolding get_recent
  from_memory limit l s (inl h) = rw h refl
  from_memory limit l s (inr h) = ground (arith, h)

  memory_window :
      (capacity : ℕ) (limit : ℤ) (h : List Message) (l : Logger) (s : S)
      → Remembers capacity h l
      → Unavailable (clamp capacity limit) (l, s)
      → contents (get_recent database limit (l, s)) ≡ last (clamp capacity limit) h
  unfolding get_recent_from_memory
  memory_window capacity limit h l s k off =
      let n = clamp capacity limit in
      let fits : n ≤ capacity = ground arith in
      let same : clamp l.capacity limit ≡ n = ap (λ c. clamp c limit) k.capacity_is in
      ap contents (from_memory limit l s (subst (λ m. Unavailable m (l, s)) (sym same) off))
      ∙ map-last (λ (e : Entry). e.content) (clamp l.capacity limit) l.entries
      ∙ rw (k.window, same) (last-last n capacity h fits)

  -- From a new logger on, whatever calls come, GetRecent shows, where the database does not answer, the
  -- last messages that were logged since the trail was last cleared: as many as asked for, or as the
  -- capacity if that is less or the limit is not positive.
  pub recent_from_memory :
      (capacity limit : ℤ) (cs : List Call) (s : S)
      → Unavailable
          (clamp (new_logger_with_capacity capacity).capacity limit)
          (calls database cs (new_logger_with_capacity capacity, s))
      → contents
          (get_recent database limit (calls database cs (new_logger_with_capacity capacity, s)))
        ≡ last (clamp (new_logger_with_capacity capacity).capacity limit) (logged cs [])
  recent_from_memory capacity limit cs s off =
      let l = new_logger_with_capacity capacity in
      let w = calls database cs (l, s) in
      memory_window l.capacity limit (logged cs []) w.0 w.1
        (calls-Remembers l.capacity [] cs (l, s) (new-Remembers capacity)) off

-- ===== src/Agent/Executor/Output.antt =====
-- What a command's result holds of its output.
use lan_commander.Base.{
  ℕ, zero, suc, ◌+◌, ◌-◌, ◌≤◌, ◌≡◌, refl, sym, ap, ◌∙◌, subst, Bool, true, false, List, [], ◌∷◌,
  ◌++◌, append_assoc, append-nil, ltb, leb, length, take, min, length-append, length-take, take_all,
  arith, Bool-cases, tests, inl, inr, if◌then◌else◌, ◌&&◌,
}
use lan_commander.Base.Int.{ℤ, pos, negsuc, pos_part, leb_ℤ}
use lan_commander.Base.Text.{Text}
use lan_commander.Os.Disk.{Bytes}
use lan_commander.Agent.Executor.{
  CappedWriter, new_writer, write, write_all, max_output_size, Run, ShellCommand, shell_command,
  result_of, execute, timeout_of, max_timeout,
}

unfoldable pub concat : List Bytes → Bytes
concat [] = []
concat (p ∷ ps) = p ++ concat ps

timeout_bounds : (t : ℤ) → (1 ≤ timeout_of t) × (timeout_of t ≤ max_timeout)
timeout_bounds (pos n) = (ground arith, ground arith)
timeout_bounds (negsuc n) = (ground arith, ground arith)

-- A writer that has been offered `seen`.
record Holds (c : CappedWriter) (seen : Bytes) : Type 0 where
  pub content : c.w ≡ take c.limit seen
  pub counted : c.total ≡ length c.w

take-empty : {A : Type 0} (n : ℕ) → take {A = A} n [] ≡ []
take-empty zero = refl
take-empty (suc n) = refl

take-append :
    {A : Type 0} (n : ℕ) (xs ys : List A) (k : ℕ)
    → k ≡ n - length xs
    → take n (xs ++ ys) ≡ take n xs ++ take k ys
take-append n [] ys k e =
    let same : n ≡ k = omega arith in rw same (ap (λ zs. zs ++ take k ys) (sym (take-empty k)))
take-append zero (x ∷ xs) ys k e = let none_left : k ≡ 0 = omega arith in rw none_left refl
take-append (suc n) (x ∷ xs) ys k e = ap (◌∷◌ x) (take-append n xs ys k (omega arith))

write_full : (c : CappedWriter) (p : Bytes) → leb c.limit c.total ≡ true → (write c p).0 ≡ c
unfolding write
write_full c p e = rw e refl

abbrev grown : CappedWriter → Bytes → CappedWriter
grown c kept = record { w = c.w ++ kept; limit = c.limit; total = c.total + length kept }

write_room :
    (c : CappedWriter) (p : Bytes)
    → leb c.limit c.total ≡ false
    → (write c p).0 ≡ grown c (take (c.limit - c.total) p)
unfolding write
write_room c p e = elim (Bool-cases (ltb (c.limit - c.total) (length p))) [
  | inl cut ↦ rw (e, cut) refl
  | inr whole ↦
      rw (e, whole) (ap (grown c) (sym (take_all (c.limit - c.total) p (ground (arith, whole)))))
]

-- A write keeps the beginning of all that was offered.
write-Holds : (c : CappedWriter) (p seen : Bytes) → Holds c seen → Holds (write c p).0 (seen ++ p)
write-Holds c p seen h =
    let size : c.total ≡ min c.limit (length seen) =
      h.counted ∙ ap length h.content ∙ length-take c.limit seen in
    elim (Bool-cases (leb c.limit c.total)) [
      | inl full ↦
          subst (λ (x : CappedWriter). Holds x (seen ++ p)) (sym (write_full c p full))
            (record {
              content =
                  h.content
                  ∙ sym (append-nil _)
                  ∙ sym (take-append c.limit seen p 0 (omega (arith, tests, size, full)));
              counted = h.counted;
            })
      | inr room ↦
          subst (λ (x : CappedWriter). Holds x (seen ++ p)) (sym (write_room c p room))
            (record {
              content =
                  ap (λ x. x ++ take (c.limit - c.total) p) h.content
                  ∙ sym
                      (take-append c.limit seen p (c.limit - c.total) (ground (arith, size, room)));
              counted =
                  ap (λ n. n + length (take (c.limit - c.total) p)) h.counted
                  ∙ sym (length-append c.w (take (c.limit - c.total) p));
            })
    ]

limit_kept : (c : CappedWriter) (ps : List Bytes) → (write_all c ps).limit ≡ c.limit
unfolding write_all write
limit_kept c [] = refl
limit_kept c (p ∷ ps) = limit_kept (write c p).0 ps ∙ ground arith

write_all-Holds :
    (c : CappedWriter) (ps : List Bytes) (seen : Bytes)
    → Holds c seen
    → Holds (write_all c ps) (seen ++ concat ps)
unfolding write_all concat
write_all-Holds c [] seen h = subst (Holds c) (sym (append-nil seen)) h
write_all-Holds c (p ∷ ps) seen h =
    subst (Holds (write_all (write c p).0 ps)) (append_assoc seen p (concat ps))
      (write_all-Holds (write c p).0 ps (seen ++ p) (write-Holds c p seen h))

-- Every write to a capped writer reports the length that was offered, whether or not it was kept, so
-- that a command that prints more than the cap does not fail.
written_length : (c : CappedWriter) (p : Bytes) → (write c p).1 ≡ length p
unfolding write
written_length c p = ground arith

capped : (ps : List Bytes) → (write_all new_writer ps).w ≡ take max_output_size (concat ps)
capped ps =
    let h = write_all-Holds new_writer ps [] (record { content = refl; counted = refl }) in
    h.content ∙ ap (λ n. take n (concat ps)) (limit_kept new_writer ps)

timeout_chosen :
    (t : ℤ)
    → timeout_of t
      ≡ (if leb_ℤ (pos 1) t && leb_ℤ t (pos max_timeout) then pos_part t else max_timeout)
timeout_chosen (pos n) = ground arith
timeout_chosen (negsuc n) = ground arith

-- Whatever is run, the result holds the first MiB of each stream, however the command split it into
-- writes, and the command was given a timeout from 1 to 300 seconds: the one asked for where it is
-- in that range, else, where it is 0 or negative too, 300.
pub execute_output :
    {S : Type 0} (run : ShellCommand → S → Run × S) (windows : Bool) (cmd : Text) (args : List Text)
    (timeout : ℤ) (shell : Text) (s : S)
    → let c = shell_command windows cmd args timeout shell in
      let r = (run c s).0 in
      let result = (execute run windows cmd args timeout shell s).0 in
      (result.stdout ≡ take max_output_size (concat r.out))
      × (result.stderr ≡ take max_output_size (concat r.err_out))
      × ((1 ≤ c.timeout) × (c.timeout ≤ max_timeout))
      × (c.timeout ≡ (
          if leb_ℤ (pos 1) timeout && leb_ℤ timeout (pos max_timeout)
          then pos_part timeout
          else max_timeout))
unfolding execute result_of shell_command
execute_output run windows cmd args timeout shell s =
    (capped _, capped _, timeout_bounds timeout, timeout_chosen timeout)

-- ===== src/Agent/Files/Upload/Bounds.antt =====
-- What the checks of an upload call let through.
use lan_commander.Base.{
  ℕ, ◌+◌, ◌-◌, ◌≤◌, ◌<◌, ◌≡◌, refl, subst, ◌∙◌, Bool, true, false, not, ◌&&◌, ◌||◌, ◌++◌,
  append-nil, arith, length, replicate, drop_all, take-append_left, nat_eq, list_eq, ltb,
}
use lan_commander.Base.Int.{
  ℤ, pos, negsuc, pos_part, ltb_ℤ, leb_ℤ, ◌+64◌, +64_exact, IsInt64, max_int64,
}
use lan_commander.Base.Exec.{ok}
use lan_commander.Base.Exec.Outcome.{ok_bind, ok_refuse_if}
use lan_commander.Os.Disk.{Bytes, Disk, splice}
use lan_commander.Agent.Files.Host.{Op, default_chunk_size}
use lan_commander.Agent.Files.Upload.{eq_ℤ, check_bounds}

-- A chunk at the end of the file is appended.
pub splice_end :
    (old chunk : Bytes) (off : ℕ) → length old ≡ off → splice old off chunk ≡ old ++ chunk
splice_end old chunk off e =
    subst (λ (n : ℕ). splice old n chunk ≡ old ++ chunk) e
      (rw
        (
          take-append_left old (replicate (length old - length old) 0),
          drop_all (length old + length chunk) old (omega arith),
        )
        (append-nil (old ++ chunk)))

-- What the checks of the arguments leave.
pub record Accepted (chunk : Bytes) (offset total : ℤ) (final : Bool) : Type 0 where
  pub offset_pos : offset ≡ pos (pos_part offset)
  pub total_pos : total ≡ pos (pos_part total)
  pub small : length chunk ≤ default_chunk_size
  pub reaches : final ≡ true → pos_part offset + length chunk ≡ pos_part total
  pub short :
      final ≡ false
      → pos_part offset + length chunk ≤ max_int64
      → pos_part offset + length chunk < pos_part total

end_reached :
    (a b n : ℕ)
    → a ≤ max_int64
    → b ≤ max_int64
    → n ≤ default_chunk_size
    → not (eq_ℤ (pos a +64 pos n) (pos b)) ≡ false
    → a + n ≡ b
unfolding ◌+64◌
end_reached a b n ha hb hn h = ground arith

end_ahead : (a b n : ℕ) → a + n ≤ max_int64 → leb_ℤ (pos b) (pos a +64 pos n) ≡ false → a + n < b
end_ahead a b n ha h =
    let e = +64_exact a n ha in
    let h' : leb_ℤ (pos b) (pos (a + n)) ≡ false = subst (λ (z : ℤ). leb_ℤ (pos b) z ≡ false) e h in
    ground arith

accepted :
    (chunk : Bytes) (offset total : ℤ) (final : Bool)
    → IsInt64 offset
    → IsInt64 total
    → (ltb_ℤ offset (pos 0) || ltb_ℤ total (pos 0)) ≡ false
    → ltb default_chunk_size (length chunk) ≡ false
    → (final && not (eq_ℤ (offset +64 pos (length chunk)) total)) ≡ false
    → (not final && leb_ℤ total (offset +64 pos (length chunk))) ≡ false
    → Accepted chunk offset total final
accepted chunk (negsuc a) total final io it c1 c2 c5 c6 = absurd (ground arith)
accepted chunk (pos a) (negsuc b) final io it c1 c2 c5 c6 = absurd (ground arith)
accepted chunk (pos a) (pos b) true io it c1 c2 c5 c6 =
    let small' : length chunk ≤ default_chunk_size = ground arith in
    record {
      offset_pos = refl;
      total_pos = refl;
      small = small';
      reaches = λ _. end_reached a b (length chunk) io.0 it.0 small' c5;
      short = λ e _. absurd cc;
    }
accepted chunk (pos a) (pos b) false io it c1 c2 c5 c6 = record {
  offset_pos = refl;
  total_pos = refl;
  small = ground arith;
  reaches = λ e. absurd cc;
  short = λ _ fits. end_ahead a b (length chunk) fits c6;
}

pub check_bounds_accepts :
    (undo : Op (Unit {0})) (chunk : Bytes) (offset total : ℤ) (final : Bool) (d t : Disk)
    → IsInt64 offset
    → IsInt64 total
    → check_bounds undo chunk offset total final d ≡ (ok tt, t)
    → (d ≡ t) × Accepted chunk offset total final
unfolding check_bounds
check_bounds_accepts undo chunk offset total final d t io it h =
    let (_, d1, e1, h1) = ok_bind _ _ d h in
    let (c1, q1) = ok_refuse_if _ undo _ d e1 in
    let (_, d2, e2, h2) = ok_bind _ _ d1 h1 in
    let (c2, q2) = ok_refuse_if _ undo _ d1 e2 in
    let (_, d3, e3, h3) = ok_bind _ _ d2 h2 in
    let (c3, q3) = ok_refuse_if _ undo _ d2 e3 in
    let (_, d4, e4, h4) = ok_bind _ _ d3 h3 in
    let (c4, q4) = ok_refuse_if _ undo _ d3 e4 in
    let (_, d5, e5, h5) = ok_bind _ _ d4 h4 in
    let (c5, q5) = ok_refuse_if _ undo _ d4 e5 in
    let (c6, q6) = ok_refuse_if _ undo _ d5 h5 in
    (q1 ∙ q2 ∙ q3 ∙ q4 ∙ q5 ∙ q6, accepted chunk offset total final io it c1 c2 c5 c6)

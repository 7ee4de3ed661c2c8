-- ===== src/Control/Transfer/Upload/Log.antt =====
-- What an upload sends to an agent that acknowledges every chunk.
use lan_commander.Base.{
  ℕ, ◌+◌, ◌≡◌, refl, sym, ap, subst, ◌∙◌, Bool, true, false, some, List, [], ◌∷◌, ◌++◌,
  if◌then◌else◌, length, take, take_all, append_assoc, append-nil, arith, list_eq, nat_eq,
}
use lan_commander.Base.Int.{pos}
use lan_commander.Base.Exec.{ok, err}
use lan_commander.Base.Text.{Text}
use lan_commander.Os.Disk.{Bytes}
use lan_commander.Control.Transfer.{SendFile, Requester, default_chunk_size}
use lan_commander.Control.Transfer.Upload.Chunk.{
  acknowledged, next_chunk, chunk_at, chunk_final, chunk_middle, chunk_seen, eq_true, eq_false,
  Accepts,
}

-- A requester that keeps what is sent, and acknowledges it.
abbrev pub recorder : Requester (List SendFile)
recorder = record {
  get_file = λ p o n log. (err tt, log);
  send_file = λ p log. (ok (some (acknowledged p)), log ++ (p ∷ []));
  cancel_file = λ p i log. log;
}

abbrev pub contents : List SendFile → Bytes
contents [] = []
contents (p ∷ log) = p.content ++ contents log

abbrev pub Addressed : Text → Text → ℕ → ℕ → SendFile → Type 0
Addressed remote id total o p =
    (p.path ≡ remote) × (p.transfer_id ≡ id) × (p.offset ≡ pos o) × (p.total_size ≡ pos total)

-- The chunks of a file from an offset on: each begins where the one before ends, and the last one
-- alone is final and has the checksum.
abbrev pub Sequence : Text → Text → ℕ → Text → ℕ → List SendFile → Type 0
Sequence remote id total sum o [] = ⊥
Sequence remote id total sum o (p ∷ []) =
    Addressed remote id total o p
    × (p.final ≡ true)
    × (p.checksum ≡ sum)
    × (o + length p.content ≡ total)
Sequence remote id total sum o (p ∷ q ∷ r) =
    Addressed remote id total o p
    × (p.final ≡ false)
    × Sequence remote id total sum (o + length p.content) (q ∷ r)

pub Sequence-cons :
    (remote id : Text) (total : ℕ) (sum : Text) (o : ℕ) (p : SendFile) (log : List SendFile)
    → Addressed remote id total o p
    → p.final ≡ false
    → Sequence remote id total sum (o + length p.content) log
    → Sequence remote id total sum o (p ∷ log)
Sequence-cons remote id total sum o p [] a f s = absurd s
Sequence-cons remote id total sum o p (q ∷ r) a f s = (a, f, s)

-- The log up to an offset: any chunks that go on from there make it a whole sequence.
abbrev pub Logged : Text → Text → Text → Bytes → ℕ → List SendFile → Type 0
Logged remote id sum b o log =
    ((rest : List SendFile)
      → Sequence remote id (length b) sum o rest
      → Sequence remote id (length b) sum 0 (log ++ rest))
    × (contents log ≡ take o b)

-- The log of a whole file.
abbrev pub LoggedAll : Text → Text → Text → Bytes → List SendFile → Type 0
LoggedAll remote id sum b log = Sequence remote id (length b) sum 0 log × (contents log ≡ b)

contents-append : (xs ys : List SendFile) → contents (xs ++ ys) ≡ contents xs ++ contents ys
contents-append [] ys = refl
contents-append (p ∷ xs) ys =
    ap (λ (x : Bytes). p.content ++ x) (contents-append xs ys)
    ∙ sym (append_assoc p.content (contents xs) (contents ys))

module _ (digest : Bytes → Text) (remote id : Text) (b : Bytes) where
  abbrev at : ℕ → SendFile
  at o = chunk_at digest remote id b o

  -- The contents after one more chunk.
  contents-next :
      (o : ℕ) (log : List SendFile)
      → contents log ≡ take o b
      → contents (log ++ (at o ∷ [])) ≡ take (o + default_chunk_size) b
  contents-next o log e =
      contents-append log (at o ∷ []) ∙ (λ i. e i ++ append-nil (next_chunk b o) i) ∙ chunk_seen b o

  pub recorder-Accepts :
      Accepts digest recorder remote id b
        (Logged remote id (digest b) b)
        (LoggedAll remote id (digest b) b)
  recorder-Accepts = record {
    on_middle = λ o log h p. (
      log ++ (at o ∷ []),
      refl,
      (
        λ rest seq.
            subst (Sequence remote id (length b) (digest b) 0)
              (sym (append_assoc log (at o ∷ []) rest))
              (p.0 (at o ∷ rest) (
                Sequence-cons remote id (length b) (digest b) o (at o) rest (refl, refl, refl, refl)
                  (eq_false _ _ (λ e. absurd (omega (arith, e, chunk_middle b o h))))
                  (subst (λ (n : ℕ). Sequence remote id (length b) (digest b) n rest)
                    (sym (chunk_middle b o h)) seq))),
        contents-next o log p.1,
      ),
    );
    on_last = λ o log le all p.
        let ends = chunk_final b o le all in
        let final = eq_true _ _ ends in
        let whole = take_all (o + default_chunk_size) b all in
        (
          log ++ (at o ∷ []),
          refl,
          (
            p.0 (at o ∷ []) (
              (refl, refl, refl, refl),
              final,
              ap (λ (x : Bool). if x then digest (take o b ++ next_chunk b o) else []) final
                  ∙ ap digest (chunk_seen b o ∙ whole),
              ends,
            ),
            contents-next o log p.1 ∙ whole,
          ),
        );
  }

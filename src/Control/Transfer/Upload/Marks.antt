-- ===== src/Control/Transfer/Upload/Marks.antt =====
-- The mark on an error of an upload, that a chunk had been sent before it.
use lan_commander.Base.{
  ℕ, zero, suc, ◌+◌, ◌≡◌, refl, sym, ap, subst, ◌∙◌, Bool, true, false, not, ◌&&◌, ◌||◌, Option,
  none, some, List, [], ◌∷◌, ◌++◌, if◌then◌else◌, ◌⊎◌, inl, inr, length, ◌==◌, nat_eq, Bool-cases,
}
use lan_commander.Base.Exec.{
  Exec, Result, ok, err, pure, raise, ◌>>=◌, ◌>>◌, catch, must, refuse_if, resume,
}
use lan_commander.Base.Exec.Keeps.{Keeps, keeps_rules}
use lan_commander.Base.Text.{Text, is_empty}
use lan_commander.Os.Disk.{Bytes, Sys, read}
use lan_commander.Control.Transfer.{
  TransferError, cannot_read_source, source_ended, out_of_fuel, SendFile, Requester, World,
  Transfer, default_chunk_size, local, check_ctx, fails_as, first_answer, later_answers,
  cancelled_or_not,
}
use lan_commander.Control.Transfer.Upload.{
  Sending, tagged, send_upload_chunk, payload, source_end, send_all,
}

module _ {S : Type 0} (s : S) where
  -- Nothing was requested.
  abbrev pub Silent : World S → Type 0
  Silent w = w.remote ≡ s

  -- An error without the mark means that nothing was requested.
  abbrev pub Marked : {A : Type 0} → Result (Bool × TransferError) A × World S → Type 0
  Marked (ok a, w) = Unit {0}
  Marked (err (true, e), w) = Unit {0}
  Marked (err (false, e), w) = Silent w

  Silent-local : {A : Type 0} (m : Sys A) → Keeps Silent (local m)
  unfolding local
  Silent-local m = record { at = λ w h. h }

  Silent-check_ctx : Keeps Silent check_ctx
  unfolding check_ctx
  Silent-check_ctx = record {
    at = λ w h.
        go (first_answer w.ctx)
          (record { disk = w.disk; remote = w.remote; ctx = later_answers w.ctx }) h;
  }
    where
      go : (b : Bool) (w : World S) → Silent w → Silent (cancelled_or_not b w).1
      go true w h = h
      go false w h = h

  ruleset silent_rules = (keeps_rules, Silent-local, Silent-check_ctx)

  pub Silent-os : {A : Type 0} (m : Sys A) (e : TransferError) → Keeps Silent (fails_as (local m) e)
  Silent-os m e = search silent_rules depth 8

  -- What is known before a chunk was sent.
  abbrev pub After : Bool → World S → Type 0
  After true w = Unit {0}
  After false w = Silent w

  pub Marked-tag :
      (A : Type 0) (sent : Bool) (e : TransferError) (w : World S)
      → After sent w
      → Marked {A = A} (err (sent, e), w)
  Marked-tag A true e w h = tt
  Marked-tag A false e w h = h

  Marked-tagged :
      {A B : Type 0} (sent : Bool) (m : Transfer S A)
      (f : A → Exec (Bool × TransferError) (World S) B) (w : World S)
      → (After sent w → After sent (m w).1)
      → After sent w
      → ((a : A) (v : World S) → After sent v → Marked (f a v))
      → Marked ((tagged sent m >>= f) w)
  unfolding tagged catch ◌>>=◌ raise
  Marked-tagged {A} {B} sent m f w k h rest = go (m w).0 (m w).1 (k h)
    where
      go :
          (r : Result TransferError A) (v : World S)
          → After sent v
          → Marked (
              (λ (o : Result (Bool × TransferError) A × World S).
                  lan_commander.Base.Exec.continue o.0 f o.1)
                (resume r (λ e. raise (sent, e)) v))
      go (ok a) v h = rest a v h
      go (err e) v h = Marked-tag B sent e v h

  Marked-end : {A : Type 0} (m : Transfer S A) (w : World S) → Marked (tagged true m w)
  unfolding tagged catch raise
  Marked-end {A} m w = go (m w).0 (m w).1
    where
      go : (r : Result TransferError A) (v : World S) → Marked (resume r (λ e. raise (true, e)) v)
      go (ok a) v = tt
      go (err e) v = tt

  kept :
      {A : Type 0} (sent : Bool) (m : Transfer S A) (w : World S)
      → Keeps Silent m
      → After sent w
      → After sent (m w).1
  kept true m w k h = h
  kept false m w k h = k.at w h

  module _ (digest : Bytes → Text) (requester : Requester S) where
    Marked-source_end :
        (remote id : Text) (total : ℕ) (sent : Bool) (seen : Bytes) (w : World S)
        → After sent w
        → Marked (source_end digest requester remote id total sent seen w)
    unfolding source_end raise
    Marked-source_end remote id total sent seen w h = go (total == 0)
      where
        go :
            (b : Bool)
            → Marked (
                (if b
                    then tagged true (
                        send_upload_chunk digest requester
                          (payload digest requester remote id 0 0 [] seen))
                    else raise (sent, source_ended))
                  w)
        go true = Marked-end _ w
        go false = Marked-tag (Unit {0}) sent source_ended w h

    -- A chunk is sent, and the loop goes on or not.
    Marked-send :
        (p : SendFile) (final : Bool) (rest : Sending S) (w : World S)
        → ((v : World S) → Marked (rest v))
        → Marked (
            (tagged true (send_upload_chunk digest requester p)
                >> (if final then pure tt else rest))
              w)
    unfolding pure
    Marked-send p final rest w k =
        Marked-tagged true (send_upload_chunk digest requester p) _ w (λ _. tt) tt
          (λ _ u _. go final u)
      where
        go : (b : Bool) (u : World S) → Marked ((if b then pure tt else rest) u)
        go true u = tt
        go false u = k u

    Marked-if :
        (b : Bool) (m n : Sending S) (w : World S)
        → Marked (m w)
        → Marked (n w)
        → Marked ((if b then m else n) w)
    Marked-if true m n w a c = a
    Marked-if false m n w a c = c

    pub Marked-send_all :
        (fuel : ℕ) (source remote id : Text) (total : ℕ) (sent : Bool) (offset : ℕ) (seen : Bytes)
        (w : World S)
        → After sent w
        → Marked (send_all digest requester fuel source remote id total sent offset seen w)
    unfolding send_all raise
    Marked-send_all zero source remote id total sent offset seen w h =
        Marked-tag (Unit {0}) sent out_of_fuel w h
    Marked-send_all (suc fuel) source remote id total sent offset seen w h =
        Marked-tagged sent check_ctx _ w (kept sent check_ctx w Silent-check_ctx) h (λ _ v h.
          Marked-tagged sent
            (fails_as (local (read source offset default_chunk_size)) cannot_read_source) _ v
            (kept sent (fails_as (local (read source offset default_chunk_size)) cannot_read_source)
              v (Silent-os _ cannot_read_source))
            h
            (λ chunk u h.
              Marked-if (is_empty chunk) _ _ u (Marked-source_end remote id total sent seen u h) (
                Marked-send (payload digest requester remote id total offset chunk (seen ++ chunk))
                  (offset + length chunk == total) _ u
                  (λ v.
                    Marked-send_all fuel source remote id total true (offset + length chunk)
                      (seen ++ chunk) v tt))))

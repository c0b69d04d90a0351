-- ===== src/WebServer/Signals.antt =====
-- `WebServer::setSigHandler` of fileserver/fileserver.cpp, which may run within any call of the program.
use cherokee.Base.{
  ℕ, ◌<◌, ◌%◌, Bool, true, false, not, ◌||◌, List, [], ◌∷◌, ◌++◌, ◌≡◌, refl, sym, ap, ap₂, ◌∙◌,
  ◌==◌, inl, inr, Bool-cases, append_assoc, append-nil, if◌then◌else◌,
}
use cherokee.Base.Int.{ℤ}
use cherokee.WebServer.{stops}
use cherokee.WebServer.LoopLaws.{stops_signal}

-- `isStop`, `errno`, and what has been given to `send`: the end of the pipe, and the number.
pub record Interrupted : Type 0 where
  pub is_stop : Bool
  pub errno : ℕ
  pub told : List (ℤ × ℕ)

abbrev stopped_by : ℕ → Interrupted → Interrupted
stopped_by signo st = if stops signo then record st { is_stop = true } else st

-- `send` to the pipe, and the log where it does not take all; `errno` is `e` then.
abbrev tell : ℤ → ℕ → ℕ → Interrupted → Interrupted
tell pipe signo e st = record st { errno = e; told = st.told ++ (pipe, signo) ∷ [] }

unfoldable pub set_sig_handler : ℤ → ℕ → ℕ → Interrupted → Interrupted
set_sig_handler pipe e signo st =
    let stopped = stopped_by signo st in
    let save_errno = stopped.errno in
    let told = tell pipe signo e stopped in record told { errno = save_errno }

-- Signals one after the other, each with what `send` leaves in `errno`.
unfoldable pub handle_signals : ℤ → List (ℕ × ℕ) → Interrupted → Interrupted
handle_signals pipe [] st = st
handle_signals pipe ((signo, e) ∷ ss) st = handle_signals pipe ss (set_sig_handler pipe e signo st)

abbrev pub AreSignals : List (ℕ × ℕ) → Type 0
AreSignals [] = Unit
AreSignals ((signo, e) ∷ ss) = (signo < 65) × AreSignals ss

-- Some number is not a multiple of 16.
abbrev pub some_stops : List (ℕ × ℕ) → Bool
some_stops [] = false
some_stops ((signo, e) ∷ ss) = not (signo % 16 == 0) || some_stops ss

abbrev pub all_told : ℤ → List (ℕ × ℕ) → List (ℤ × ℕ)
all_told pipe [] = []
all_told pipe ((signo, e) ∷ ss) = (pipe, signo) ∷ all_told pipe ss

abbrev pub after_all : ℤ → List (ℕ × ℕ) → Interrupted → Interrupted
after_all pipe ss st = record {
  is_stop = st.is_stop || some_stops ss;
  errno = st.errno;
  told = st.told ++ all_told pipe ss;
}

or_true : (b : Bool) → (b || true) ≡ true
or_true true = refl
or_true false = refl

or_false : (b : Bool) → (b || false) ≡ b
or_false true = refl
or_false false = refl

or_assoc : (a b c : Bool) → ((a || b) || c) ≡ (a || (b || c))
or_assoc true b c = refl
or_assoc false b c = refl

set_sig_handler_lem :
    (pipe : ℤ) (e signo : ℕ) (st : Interrupted)
    → signo < 65
    → set_sig_handler pipe e signo st ≡ record {
      is_stop = st.is_stop || not (signo % 16 == 0);
      errno = st.errno;
      told = st.told ++ (pipe, signo) ∷ [];
    }
unfolding set_sig_handler
set_sig_handler_lem pipe e signo st h =
    let agree = stops_signal signo h in
    let with_flag : Bool → Interrupted =
      λ b. record { is_stop = b; errno = st.errno; told = st.told ++ (pipe, signo) ∷ [] } in
    elim (Bool-cases (stops signo)) [
      | inl yes' ↦
          rw yes'
            (ap with_flag (sym (or_true st.is_stop) ∙ ap (◌||◌ st.is_stop) (sym yes' ∙ agree)))
      | inr no' ↦
          rw no' (ap with_flag (sym (or_false st.is_stop) ∙ ap (◌||◌ st.is_stop) (sym no' ∙ agree)))
    ]

-- The handler of signals, for any signals of Linux, whose numbers are below 65, one after the other and
-- whatever `send` to the pipe and the log leave in `errno`: the flag that stops the server is set just
-- if some number is not a multiple of 16 or it was set before, `errno` is as it was found, and each
-- number has been given to the pipe, in order.
pub handle_signals-after_all :
    (pipe : ℤ) (ss : List (ℕ × ℕ)) (st : Interrupted)
    → AreSignals ss
    → handle_signals pipe ss st ≡ after_all pipe ss st
unfolding handle_signals
handle_signals-after_all pipe [] st h =
    ap₂ (λ b t. record { is_stop = b; errno = st.errno; told = t }) (sym (or_false st.is_stop))
      (sym (append-nil st.told))
handle_signals-after_all pipe ((signo, e) ∷ ss) st (small, rest) =
    handle_signals-after_all pipe ss (set_sig_handler pipe e signo st) rest
    ∙ ap (after_all pipe ss) (set_sig_handler_lem pipe e signo st small)
    ∙ ap₂ (λ b t. record { is_stop = b; errno = st.errno; told = t })
        (or_assoc st.is_stop (not (signo % 16 == 0)) (some_stops ss))
        (append_assoc st.told ((pipe, signo) ∷ []) (all_told pipe ss))

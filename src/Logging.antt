-- ===== src/Logging.antt =====
-- src/logging.h and src/logging.c: the level and the file of the log, and what is printed.
use masters_proj.Prelude.{
  ℕ, ◌≡◌, ◌≢◌, refl, ◌⊎◌, inl, inr, false, ap, List, [], ◌∷◌, ◌++◌, Option, leb, if◌then◌else◌,
}
use mathlib.Core.List.{append-nil, append_assoc}

-- `enum LOG_LEVEL`, and the numbers of its constants.
pub data LogLevel : Type 0 where
  debug info warn error silent : LogLevel

abbrev pub rank : LogLevel → ℕ
rank debug = 0
rank info = 1
rank warn = 2
rank error = 3
rank silent = 4

-- `_log_level`, `_log_fildes`, and the messages printed so far, in order. A file is the path it was
-- opened with, or `none` for stdout.
pub record Logger (Message : Type 0) : Type 0 where
  pub level : LogLevel
  pub fildes : Option (List ℕ)
  pub printed : List Message

pub debug-cases : (level : LogLevel) → (level ≡ debug) ⊎ (level ≢ debug)
debug-cases debug = inl refl
debug-cases info = inr λ e. cc
debug-cases warn = inr λ e. cc
debug-cases error = inr λ e. cc
debug-cases silent = inr λ e. cc

-- Only the lowest level prints what `DLOG` logs.
debug-lowest : (level : LogLevel) → level ≢ debug → leb (rank level) 0 ≡ false
debug-lowest debug ne = absurd (ne refl)
debug-lowest info ne = refl
debug-lowest warn ne = refl
debug-lowest error ne = refl
debug-lowest silent ne = refl

module _ {Message : Type 0} where
  unfoldable pub init_logging : LogLevel → Option (List ℕ) → Logger Message → Logger Message
  init_logging level fildes l = record l { level = level; fildes = fildes }

  -- `LOG`.
  unfoldable pub log_at : LogLevel → Message → Logger Message → Logger Message
  log_at level message l =
      if leb (rank l.level) (rank level)
      then record l { printed = l.printed ++ message ∷ [] }
      else l

  -- `DLOG`.
  unfoldable pub dlog : Message → Logger Message → Logger Message
  dlog = log_at debug

  -- A logger that printed some more messages.
  abbrev pub with_printed : List Message → Logger Message → Logger Message
  with_printed ms l = record l { printed = l.printed ++ ms }

  pub dlog-printed :
      (message : Message) (l : Logger Message)
      → l.level ≡ debug
      → dlog message l ≡ with_printed (message ∷ []) l
  unfolding dlog log_at
  dlog-printed message l e = rw e refl

  pub dlog-quiet : (message : Message) (l : Logger Message) → l.level ≢ debug → dlog message l ≡ l
  unfolding dlog log_at
  dlog-quiet message l ne = rw (debug-lowest l.level ne) refl

  pub with_printed-nil : (l : Logger Message) → with_printed [] l ≡ l
  with_printed-nil l = ap (λ ms. record l { printed = ms }) (append-nil l.printed)

  pub with_printed-append :
      (ms ns : List Message) (l : Logger Message)
      → with_printed ns (with_printed ms l) ≡ with_printed (ms ++ ns) l
  with_printed-append ms ns l =
      ap (λ (ps : List Message). record l { printed = ps }) (append_assoc l.printed ms ns)

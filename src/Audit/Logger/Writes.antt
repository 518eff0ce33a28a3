-- ===== src/Audit/Logger/Writes.antt =====
-- audit/logger.py, `_write`: what any number of writes leaves in the file and on the output.
use mcp_zero_trust_layer.Base.{
  Bool-cases, ◌==◌, nat_eq, string_eq, option_eq, ℤ, pos, int_eq, bool_eq, ◌+ℤ◌, ℕ, suc, String,
  ◌≡◌, refl, ap, ◌∙◌, inl, inr, Bool, true, false, ◌&&◌, Option, none, some, List, [], ◌∷◌, ◌++◌,
  arith,
}
use mcp_zero_trust_layer.Value.{dict, Fields, as_str}
use mcp_zero_trust_layer.Host.{Host}
use mcp_zero_trust_layer.Config.{capability_type_eq, AuditConfig}
use mcp_zero_trust_layer.Audit.Logger.{
  Line, holds, AuditState, int_or_zero, previous_chain_state, Trouble, fine, fails_before,
  fails_after, torn, unended, unread, seen, put_line, after_line, passed, event_hash, placed,
  with_hash, write_stdout, next_line, write_file, write, verify_from, verify_audit_hash_chain,
}
use mcp_zero_trust_layer.Audit.Logger.Chain.{
  previous_chain_state-append, get_or_null-some, verified, event_hash-with_hash, with_hash-entries,
  event_failure-with_hash, with_hash-has_sequence, verified-append,
}

-- A write that leaves whole lines, after a read of the last event that did not fail.
abbrev pub keeps_lines : Trouble → Bool
keeps_lines fine = true
keeps_lines fails_before = true
keeps_lines fails_after = true
keeps_lines torn = false
keeps_lines unended = false
keeps_lines (unread t) = false

abbrev pub all_keep_lines : List (Trouble × Fields) → Bool
all_keep_lines [] = true
all_keep_lines ((trouble, event) ∷ rest) = keeps_lines trouble && all_keep_lines rest

both_true : (a b : Bool) → (a && b) ≡ true → (a ≡ true) × (b ≡ true)
both_true a b h = ground arith

pos_suc : (n : ℕ) → pos n +ℤ pos 1 ≡ pos (suc n)
unfolding ◌+ℤ◌
pos_suc n = ground arith

-- the lines of what was printed
abbrev pub printed_lines : List Fields → List Line
printed_lines [] = []
printed_lines (e ∷ es) = holds (dict e) ∷ printed_lines es

printed_lines-append :
    (es : List Fields) (e : Fields)
    → printed_lines (es ++ e ∷ []) ≡ printed_lines es ++ holds (dict e) ∷ []
printed_lines-append [] e = refl
printed_lines-append (f ∷ es) e = rw (printed_lines-append es e)

pair_eq :
    {a b : Option String} {m n : ℤ} → a ≡ b → m ≡ n → ◌≡◌ {A = Option String × ℤ} (a, m) (b, n)
pair_eq h k = cc

module _ (host : Host) (hmac : String → String → String) (key : Option String) where
  -- The lines pass the check, which ends in the state that the next write starts from.
  abbrev EndsIn : List Line → Option String → ℕ → Type 0
  EndsIn lines p n = verified host hmac key 1 none 0 lines ≡ passed p n

  record IsChained (s : AuditState) : Type 0 where
    hash : Option String
    number : ℕ
    file_checked : EndsIn s.lines hash number
    file_state : previous_chain_state s.lines ≡ (hash, pos number)
    whole : s.cut ≡ false
    output_number : ℕ
    output_checked : EndsIn (printed_lines s.printed) s.stdout_previous output_number
    output_state : s.stdout_sequence ≡ pos output_number

  -- an event of the logger after lines that pass
  EndsIn-append :
      (lines : List Line) (p : Option String) (n : ℕ) (event : Fields)
      → EndsIn lines p n
      → EndsIn
          (lines ++ holds (dict (with_hash host hmac key event p (pos (suc n)))) ∷ [])
          (some (event_hash host hmac key (with_hash host hmac key event p (pos (suc n)))))
          (suc n)
  EndsIn-append lines p n event h =
      verified-append host hmac key lines 1 none 0 _ h
        (event_failure-with_hash host hmac key event p n)
      ∙ rw (with_hash-has_sequence host hmac key event p (pos (suc n)))

  state-append :
      (lines : List Line) (p : Option String) (n : ℕ) (event : Fields)
      → previous_chain_state
          (lines ++ holds (dict (with_hash host hmac key event p (pos (suc n)))) ∷ [])
        ≡ (
          some (event_hash host hmac key (with_hash host hmac key event p (pos (suc n)))),
          pos (suc n),
        )
  state-append lines p n event =
      let (_, s, h) = with_hash-entries host hmac key event p (pos (suc n)) in
      previous_chain_state-append lines (with_hash host hmac key event p (pos (suc n)))
      ∙ pair_eq (ap as_str (get_or_null-some _ _ h)) (ap int_or_zero (get_or_null-some _ _ s))

  next_line-with_hash :
      (event : Fields) (lines : List Line) (p : Option String) (n : ℕ)
      → previous_chain_state lines ≡ (p, pos n)
      → next_line host hmac key true event lines
        ≡ holds (dict (with_hash host hmac key event p (pos (suc n))))
  unfolding next_line
  next_line-with_hash event lines p n h = rw (h, next_line) (rw (pos_suc n))

  written-IsChained :
      (b : Bool) (event : Fields) (s : AuditState)
      → b ≡ true
      → IsChained s
      → IsChained (put_line (next_line host hmac key b event s.lines) false s)
  written-IsChained b event s on c =
      let line =
        ap (λ (x : Bool). next_line host hmac key x event s.lines) on
        ∙ next_line-with_hash event s.lines c.hash c.number c.file_state in
      record {
        hash =
            some (
              event_hash host hmac key (with_hash host hmac key event c.hash (pos (suc c.number))));
        number = suc c.number;
        file_checked =
            rw c.whole (rw line (EndsIn-append s.lines c.hash c.number event c.file_checked));
        file_state = rw c.whole (rw line (state-append s.lines c.hash c.number event));
        whole = refl;
        output_number = c.output_number;
        output_checked = c.output_checked;
        output_state = c.output_state;
      }

  printed-EndsIn :
      (event : Fields) (es : List Fields) (p : Option String) (z : ℤ) (n : ℕ)
      → z ≡ pos (suc n)
      → EndsIn (printed_lines es) p n
      → EndsIn
          (printed_lines (es ++ with_hash host hmac key event p z ∷ []))
          (some (event_hash host hmac key (placed host hmac key event p z)))
          (suc n)
  printed-EndsIn event es p z n h c = rw h (
      rw (printed_lines-append es (with_hash host hmac key event p (pos (suc n)))) (
        rw (← event_hash-with_hash host hmac key event p (pos (suc n)))
          (EndsIn-append (printed_lines es) p n event c)))

  write_file-IsChained :
      (config : AuditConfig) (trouble : Trouble) (event : Fields) (s : AuditState)
      → config.hash_chain ≡ true
      → keeps_lines trouble ≡ true
      → IsChained s
      → IsChained (write_file host hmac key config trouble event s).1
  unfolding write_file after_line seen
  write_file-IsChained config fine event s on kept c =
      written-IsChained config.hash_chain event s on c
  write_file-IsChained config fails_before event s on kept c = c
  write_file-IsChained config fails_after event s on kept c =
      written-IsChained config.hash_chain event s on c
  write_file-IsChained config torn event s on kept c = cc
  write_file-IsChained config unended event s on kept c = cc
  write_file-IsChained config (unread t) event s on kept c = cc

  write_stdout-IsChained :
      (event : Fields) (s : AuditState)
      → IsChained s
      → IsChained (write_stdout host hmac key true event s)
  unfolding write_stdout
  write_stdout-IsChained event s c =
      let next = ap (λ (z : ℤ). z +ℤ pos 1) c.output_state ∙ pos_suc c.output_number in
      record {
        hash = c.hash;
        number = c.number;
        file_checked = c.file_checked;
        file_state = c.file_state;
        whole = c.whole;
        output_number = suc c.output_number;
        output_checked =
            printed-EndsIn event s.printed s.stdout_previous _ c.output_number next
              c.output_checked;
        output_state = next;
      }

  write-IsChained :
      (config : AuditConfig) (trouble : Trouble) (event : Fields) (s : AuditState)
      → config.hash_chain ≡ true
      → keeps_lines trouble ≡ true
      → IsChained s
      → IsChained (write host hmac key config trouble event s).1
  unfolding write
  write-IsChained config trouble event s on kept c =
      elim (Bool-cases (config.destination == "stdout")) [
        | inl output ↦ rw output (rw on (write_stdout-IsChained event s c))
        | inr file ↦ rw file (write_file-IsChained config trouble event s on kept c)
      ]

  -- Calls of `_write`, one after another; each may fail on the file.
  unfoldable pub write_all : AuditConfig → List (Trouble × Fields) → AuditState → AuditState
  write_all config [] s = s
  write_all config ((trouble, event) ∷ rest) s =
      write_all config rest (write host hmac key config trouble event s).1

  write_all-IsChained :
      (config : AuditConfig) (events : List (Trouble × Fields)) (s : AuditState)
      → config.hash_chain ≡ true
      → all_keep_lines events ≡ true
      → IsChained s
      → IsChained (write_all config events s)
  unfolding write_all
  write_all-IsChained config [] s on kept c = c
  write_all-IsChained config ((trouble, event) ∷ rest) s on kept c =
      let (first_kept, rest_kept) = both_true _ _ kept in
      write_all-IsChained config rest _ on rest_kept
        (write-IsChained config trouble event s on first_kept c)

  verifies :
      (lines : List Line) (p : Option String) (n : ℕ)
      → EndsIn lines p n
      → (verify_audit_hash_chain host hmac key (inr lines)).0 ≡ true
  unfolding verify_audit_hash_chain
  verifies lines p n h = rw (h, verify_audit_hash_chain)

-- a new process and a new file
abbrev pub empty_log : AuditState
empty_log = record {
  lines = [];
  cut = false;
  printed = [];
  stdout_previous = none;
  stdout_sequence = pos 0;
}

-- With the hash chain on, whatever events are written from an empty log, to the file or to the
-- standard output, where a write of the file may raise an `OSError` with the line left out or
-- written whole, but not with a part of it, and the last event can be read at each write: the file
-- that they leave passes `verify_audit_hash_chain`, and so do the lines printed.
pub write_all-verifies :
    (host : Host) (hmac : String → String → String) (key : Option String) (config : AuditConfig)
    (events : List (Trouble × Fields))
    → config.hash_chain ≡ true
    → all_keep_lines events ≡ true
    → ((verify_audit_hash_chain host hmac key
          (inr (write_all host hmac key config events empty_log).lines)).0
        ≡ true)
      × ((verify_audit_hash_chain host hmac key
            (inr (printed_lines (write_all host hmac key config events empty_log).printed))).0
          ≡ true)
unfolding verify_from previous_chain_state
write_all-verifies host hmac key config events on kept =
    let c = write_all-IsChained host hmac key config events empty_log on kept (record {
      hash = none;
      number = 0;
      file_checked = refl;
      file_state = refl;
      whole = refl;
      output_number = 0;
      output_checked = refl;
      output_state = refl;
    }) in
    (
      verifies host hmac key _ c.hash c.number c.file_checked,
      verifies host hmac key _ _ c.output_number c.output_checked,
    )

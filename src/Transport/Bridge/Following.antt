-- ===== src/Transport/Bridge/Following.antt =====
-- What a reader of the bridge gets of the stream.
use netherbrain.Prelude.{
  ℕ, String, Bool, true, false, none, some, List, [], ◌∷◌, ◌++◌, ◌≡◌, refl, sym, ap, ◌∙◌, subst,
  arith, append_assoc, append-nil, inl, inr, ◌⊎◌, All,
}
use netherbrain.Transport.Bridge.{
  Entry, Poll, grows, expires, arrivals, Reason, terminal, idle_timeout, expired, Bridge, handled,
  turn, follow,
}
use netherbrain.Transport.Bridge.Order.{IsSplit, IsOrdered, IsXread}
use netherbrain.Transport.Bridge.Reading.{through, shown, read_entries-shown, read_entries-IsSplit}

-- The entries that arrive in the polls.
abbrev pub upcoming : List Poll → List Entry
upcoming [] = []
upcoming (p ∷ ps) = arrivals p ++ upcoming ps

module _ (is_terminal_type : String → Bool) where
  -- What a reader is to see of entries.
  abbrev pub events : List Entry → List (String × String)
  events es = shown is_terminal_type (through is_terminal_type es)

  module _ (newer : String → String → Bool) (xread : String → List Entry → List Entry)
      (reads : IsXread newer xread) (poll_interval_ms max_idle_ms : ℕ) where
    abbrev final : List Poll → List Entry → Bridge → Bridge
    final = follow is_terminal_type poll_interval_ms max_idle_ms xread

    abbrev next : List Entry → Bool → Bridge → Bridge
    next = handled is_terminal_type poll_interval_ms max_idle_ms

    -- What a reader has got of what was to come, when the polls are over: a part from the front,
    -- and all of it where the run has ended or where nothing is left to be read.
    pub record IsFollowed (log : List Entry) (b c : Bridge) (todo : List Entry) : Type 0 where
      pub missing : List (String × String)
      pub prefix : c.yielded ++ missing ≡ b.yielded ++ events todo
      pub complete :
          (c.stopped ≡ some terminal) ⊎ ((c.stopped ≡ none) × (xread c.cursor log ≡ []))
          → missing ≡ []

    follow_stopped :
        (ps : List Poll) (log : List Entry) (b : Bridge) (r : Reason)
        → b.stopped ≡ some r
        → final ps log b ≡ b
    unfolding follow
    follow_stopped [] log b r h = refl
    follow_stopped (p ∷ ps) log b r h = ground arith

    -- The ways in which an idle poll goes on.
    idle-cases :
        (exists : Bool) (b : Bridge)
        → b.stopped ≡ none
        → let c = next [] exists b in
          (c.yielded ≡ b.yielded)
          × (c.cursor ≡ b.cursor)
          × (((exists ≡ true) × (c.stopped ≡ none))
              ⊎ ((c.stopped ≡ some idle_timeout) ⊎ (c.stopped ≡ some expired)))
    unfolding handled
    idle-cases exists b h = ground arith

    gave_up :
        (ps : List Poll) (end log : List Entry) (b c : Bridge) (r : Reason) (todo : List Entry)
        → c.stopped ≡ some r
        → (r ≡ idle_timeout) ⊎ (r ≡ expired)
        → c.yielded ≡ b.yielded
        → IsFollowed end b (final ps log c) todo
    gave_up ps end log b c r todo h why same = record {
      missing = events todo;
      prefix =
          ap (λ d. d.yielded ++ events todo) (follow_stopped ps log c r h)
          ∙ ap (λ l. l ++ events todo) same;
      complete = λ live. absurd (ground (arith, follow_stopped ps log c r h));
    }

    -- What is to be shown of the polls that are left.
    abbrev Goal : List Poll → Type 0
    Goal ps =
        (done rest log : List Entry) (b : Bridge)
        → log ≡ done ++ rest
        → b.stopped ≡ none
        → IsOrdered newer (log ++ upcoming ps)
        → IsSplit newer b.cursor done (rest ++ upcoming ps)
        → IsFollowed (log ++ upcoming ps) b (final ps log b) (rest ++ upcoming ps)

    -- A turn that has yielded a part passes on what is followed behind it.
    onward :
        (end : List Entry) (b c d : Bridge) (todo rest : List Entry)
        → c.yielded ++ events rest ≡ b.yielded ++ events todo
        → IsFollowed end c d rest
        → IsFollowed end b d todo
    onward end b c d todo rest same f = record {
      missing = f.missing;
      prefix = f.prefix ∙ same;
      complete = f.complete;
    }

    -- A turn in which XREAD has given what it could, and what is followed behind it.
    handled-IsFollowed :
        (ps : List Poll) (got more done r log : List Entry) (b : Bridge)
        → Goal ps
        → log ≡ done ++ r
        → got ++ more ≡ r
        → b.stopped ≡ none
        → IsOrdered newer (log ++ upcoming ps)
        → IsSplit newer b.cursor done (r ++ upcoming ps)
        → IsFollowed (log ++ upcoming ps) b (final ps log (next got true b)) (r ++ upcoming ps)
    unfolding handled
    handled-IsFollowed ps [] more done r log b go at parts live o s =
        let c = next [] true b in
        let end = log ++ upcoming ps in
        let todo = r ++ upcoming ps in
        let (same, stays, how) = idle-cases true b live in
        elim how [
          | inl (_, on) ↦
              onward end b c (final ps log c) todo todo (ap (λ l. l ++ events todo) same)
                (go done r log c at on o (subst (λ k. IsSplit newer k done todo) (sym stays) s))
          | inr (inl stop) ↦ gave_up ps end log b c idle_timeout todo stop (inl refl) same
          | inr (inr stop) ↦ gave_up ps end log b c expired todo stop (inr refl) same
        ]
    handled-IsFollowed ps (e ∷ es) more done r log b go at parts live o s =
        let c = next (e ∷ es) true b in
        let end = log ++ upcoming ps in
        let later = more ++ upcoming ps in
        let whole : (e ∷ es) ++ later ≡ r ++ upcoming ps =
          sym (append_assoc (e ∷ es) more (upcoming ps)) ∙ ap (λ x. x ++ upcoming ps) parts in
        let split : log ≡ (done ++ (e ∷ es)) ++ more =
          at ∙ ap (λ x. done ++ x) (sym parts) ∙ sym (append_assoc done (e ∷ es) more) in
        let ordered : IsOrdered newer (done ++ ((e ∷ es) ++ later)) =
          subst (IsOrdered newer)
            (ap (λ x. x ++ upcoming ps) at
              ∙ append_assoc done r (upcoming ps)
              ∙ ap (λ x. done ++ x) (sym whole))
            o in
        let start = record b { idle_elapsed = 0 } in
        subst (IsFollowed end b (final ps log c)) whole
          (elim (read_entries-shown is_terminal_type (e ∷ es) later start live) [
            | inl (stop, all) ↦ record {
              missing = [];
              prefix =
                  append-nil _ ∙ ap (λ d. d.yielded) (follow_stopped ps log c terminal stop) ∙ all;
              complete = λ _. refl;
            }
            | inr (on, all) ↦ onward end b c (final ps log c) ((e ∷ es) ++ later) later all (
                go (done ++ (e ∷ es)) more log c split on o (
                  read_entries-IsSplit is_terminal_type newer (e ∷ es) done later start on ordered
                    (subst (IsSplit newer b.cursor done) (sym whole) s)))
          ])

    follow-grows :
        (arrived : List Entry) (ps : List Poll) (log : List Entry) (b : Bridge)
        → b.stopped ≡ none
        → final (grows arrived ∷ ps) log b
          ≡ final ps (log ++ arrived) (next (xread b.cursor (log ++ arrived)) true b)
    unfolding follow turn
    follow-grows arrived ps log b h = rw h refl

    follow-expires :
        (ps : List Poll) (log : List Entry) (b : Bridge)
        → b.stopped ≡ none
        → final (expires ∷ ps) log b ≡ final ps (log ++ []) (next [] false b)
    unfolding follow turn
    follow-expires ps log b h = rw h refl

    -- A reader behind the entries `done`, with `rest` not yet read.
    follow-Goal : (ps : List Poll) → Goal ps
    unfolding follow
    follow-Goal [] done rest log b at live o s = record {
      missing = events (rest ++ []);
      prefix = refl;
      complete = λ why. elim why [
        | inl t ↦ absurd (ground arith)
        | inr (_, none_left) ↦
            let split = subst (IsSplit newer b.cursor done) (append-nil rest) s in
            ap (λ x. events x)
              (append-nil rest
                ∙ reads.progress b.cursor done rest split
                    (ap (xread b.cursor) (sym at ∙ sym (append-nil log)) ∙ none_left))
      ];
    }
    follow-Goal (grows arrived ∷ ps) done rest log b at live o s =
        let up = upcoming ps in
        let r = rest ++ arrived in
        let more_log = log ++ arrived in
        let todo : (rest ++ arrived) ++ up ≡ rest ++ (arrived ++ up) =
          append_assoc rest arrived up in
        let end : (log ++ arrived) ++ up ≡ log ++ (arrived ++ up) = append_assoc log arrived up in
        let split : IsSplit newer b.cursor done (r ++ up) =
          subst (IsSplit newer b.cursor done) (sym todo) s in
        let there : more_log ≡ done ++ r =
          ap (λ x. x ++ arrived) at ∙ append_assoc done rest arrived in
        let (more, parts) = reads.front b.cursor done r (split.0, All-front r up split.1) in
        subst (λ t. IsFollowed (log ++ (arrived ++ up)) b (final (grows arrived ∷ ps) log b) t) todo
          (subst (λ d. IsFollowed (log ++ (arrived ++ up)) b d (r ++ up))
            (sym (follow-grows arrived ps log b live))
            (subst
              (λ l.
                IsFollowed l b (final ps more_log (next (xread b.cursor more_log) true b))
                  (r ++ up))
              end
              (handled-IsFollowed ps (xread b.cursor more_log) more done r more_log b
                (follow-Goal ps) there (ap (λ l. xread b.cursor l ++ more) there ∙ parts) live
                (subst (IsOrdered newer) (sym end) o) split)))
      where
        All-front :
            (xs ys : List Entry)
            → All (λ (e : Entry). newer b.cursor e.stream_id ≡ true) (xs ++ ys)
            → All (λ (e : Entry). newer b.cursor e.stream_id ≡ true) xs
        All-front [] ys h = tt
        All-front (x ∷ xs) ys h = (h.0, All-front xs ys h.1)
    follow-Goal (expires ∷ ps) done rest log b at live o s =
        let todo = rest ++ upcoming ps in
        let end = log ++ upcoming ps in
        let c = next [] false b in
        let (same, _, how) = idle-cases false b live in
        subst (λ d. IsFollowed end b d todo) (sym (follow-expires ps log b live))
          (elim how [
            | inl (off, _) ↦ absurd (ground arith)
            | inr (inl stop) ↦ gave_up ps end (log ++ []) b c idle_timeout todo stop (inl refl) same
            | inr (inr stop) ↦ gave_up ps end (log ++ []) b c expired todo stop (inr refl) same
          ])

    -- With an XREAD that gives the entries behind its cursor from the front, on a stream that is only
    -- appended to and whose ids grow: a bridge that has not stopped, with its cursor behind the
    -- entries `done`, yields the events of what is behind them, in the stream's order, none twice
    -- and none left out, through the first entry that ends the run and no further. An end of them
    -- may be missing where the bridge has given up, for idleness or because the stream has expired,
    -- or while XREAD still has entries to give.
    pub follow-IsFollowed :
        (ps : List Poll) (done rest : List Entry) (b : Bridge)
        → b.stopped ≡ none
        → IsOrdered newer ((done ++ rest) ++ upcoming ps)
        → IsSplit newer b.cursor done (rest ++ upcoming ps)
        → IsFollowed
            ((done ++ rest) ++ upcoming ps)
            b
            (final ps (done ++ rest) b)
            (rest ++ upcoming ps)
    follow-IsFollowed ps done rest b live o s =
        follow-Goal ps done rest (done ++ rest) b refl live o s

-- ===== src/Slash/Ownership.antt =====
-- src/mattermost/slash-commands.ts: the requests that a reconciliation may send, whatever the server
-- answers.
use openclaw_mattermost_cust.Base.{
  ◌≡◌, refl, Bool, true, false, not, ◌&&◌, String, ◌==◌, eq_refl, List, [], ◌∷◌, ◌++◌, any, Result,
  ok, err, inl, inr, Bool-cases, arith, All,
}
use openclaw_mattermost_cust.Base.Text.{trim, is_empty}
use openclaw_mattermost_cust.Slash.Requests.{
  Command, Spec, Registered, Request, reads, creates, updates, deletes, Failure, throws, aborted,
  Server, continue, pure, throw, drifted, is_owned, owned_for, foreign_for, is_nil, is_taken,
  candidate_triggers, with_registered, has_trigger, has_specs, settings_for,
}
use openclaw_mattermost_cust.Slash.Registration.{
  send, resolve_reused_token, reuse, reconcile, reconcile_candidates, register_loop, cleanup,
  with_cleanup, register_commands, is_spared,
}
use openclaw_mattermost_cust.Slash.Sending.{
  IsAllowed, Sends, Sends-continue, Sends-if, Sends-send, select_head, select_none, any_self,
  skip_failure-Sends,
}

module _ (server : Server) (creator : String) (existing : List Command)
    (stale : Command → Bool) where
  abbrev Fine : Request → Type 0
  Fine = IsAllowed creator existing stale

  token-Sends : (c : Command) → Sends Fine (resolve_reused_token server c)
  unfolding resolve_reused_token
  token-Sends c =
      Sends-if Fine (is_empty c.token) _ _
        (λ sent h.
          Sends-continue Fine _ (send server (reads c.id) sent)
            (λ a.
              Sends-if Fine (is_empty a.token) (throw throws) (pure a.token) (λ s k. k) (λ s k. k))
            (Sends-send Fine server (reads c.id) tt sent h))
        (λ sent h. h)

  reuse-Sends : (team url t : String) (c : Command) → Sends Fine (reuse server team url t c)
  unfolding reuse
  reuse-Sends team url t c sent h =
      Sends-continue Fine _ (resolve_reused_token server c sent) (λ token s k. k)
        (token-Sends c sent h)

  -- A trigger that is not taken and that the creator does not own is nobody's.
  unheld :
      (t : String)
      → owned_for creator t existing ≡ []
      → is_taken creator existing t ≡ false
      → any (λ d. d.trigger == t) existing ≡ false
  unheld t e free =
      let own : is_nil (owned_for creator t existing) ≡ true = rw e refl in
      let foreign : is_nil (foreign_for creator t existing) ≡ true = ground arith in
      select_none (λ d. d.trigger == t) (is_owned creator) existing own foreign

  reconcile-Sends :
      (team url t : String) (spec : Spec) (owned : List Command)
      → owned_for creator t existing ≡ owned
      → is_taken creator existing t ≡ false
      → Sends Fine (reconcile server team url t spec owned)
  unfolding reconcile
  reconcile-Sends team url t spec [] e free = λ sent h. skip_failure-Sends Fine _ (
      Sends-continue Fine _ (send server (creates (settings_for team url t spec)) sent) (λ c s k. k)
        (Sends-send Fine server (creates (settings_for team url t spec)) (unheld t e free) sent h))
  reconcile-Sends team url t spec (c ∷ extra) e free =
      Sends-if Fine (drifted url c) _ _
        (λ sent h.
          Sends-continue Fine _ (send server (updates c.id (settings_for team url t spec)) sent)
            (λ updated. reuse-Sends team url t updated)
            (Sends-send Fine server (updates c.id (settings_for team url t spec))
              (select_head (λ d. d.trigger == t && is_owned creator d) (λ d. d.id == c.id) existing
                extra c e (eq_refl c.id))
              sent h))
        (reuse-Sends team url t c)

  candidates-Sends :
      (team url : String) (spec : Spec) (ts : List String)
      → Sends Fine (reconcile_candidates server team creator url existing spec ts)
  unfolding reconcile_candidates
  candidates-Sends team url spec [] = λ sent h. h
  candidates-Sends team url spec (t ∷ ts) = elim (Bool-cases (is_taken creator existing t)) [
    | inl taken ↦ rw taken (candidates-Sends team url spec ts)
    | inr free ↦ rw free (reconcile-Sends team url t spec (owned_for creator t existing) refl free)
  ]

  loop-Sends :
      (team url : String) (specs : List (Bool × Spec)) (done : List Registered)
      → Sends Fine (register_loop server team creator url existing specs done)
  unfolding register_loop
  loop-Sends team url [] done = λ sent h. h
  loop-Sends team url ((is_aborted, spec) ∷ specs) done =
      Sends-if Fine is_aborted (throw aborted) _ (λ sent h. h)
        (λ sent h.
          Sends-continue Fine _
            (reconcile_candidates server team creator url existing spec (candidate_triggers spec)
              sent)
            (λ r. loop-Sends team url specs (with_registered r done))
            (candidates-Sends team url spec (candidate_triggers spec) sent h))

-- The triggers of the commands that were registered are not stale.
abbrev pub unregistered : List Registered → Command → Bool
unregistered done c = not (has_trigger c.trigger done)

module _ (server : Server) (creator : String) (existing : List Command)
    (done : List Registered) where
  cleanup-Sends :
      (cs : List Command)
      → All (λ c. (q : Command → Bool) → q c ≡ true → any q existing ≡ true) cs
      → (handled : List String)
      → Sends
          (IsAllowed creator existing (unregistered done))
          (cleanup server creator done cs handled)
  unfolding cleanup
  cleanup-Sends [] listed handled = λ sent h. h
  cleanup-Sends (c ∷ cs) listed handled = elim (Bool-cases (is_spared creator done handled c)) [
    | inl kept ↦ rw kept (cleanup-Sends cs listed.1 handled)
    | inr gone ↦ rw gone (λ sent h. cleanup-Sends cs listed.1 (handled ++ c.trigger ∷ []) _ (
        Sends-send (IsAllowed creator existing (unregistered done)) server (deletes c.id)
          (listed.0 _ (ground (arith, eq_refl c.id))) sent h))
  ]

  cleanup_returns :
      (cs : List Command) (handled : List String) (sent : List Request)
      → (cleanup server creator done cs handled sent).0 ≡ ok tt
  unfolding cleanup
  cleanup_returns [] handled sent = refl
  cleanup_returns (c ∷ cs) handled sent = elim (Bool-cases (is_spared creator done handled c)) [
    | inl kept ↦ rw kept (cleanup_returns cs handled sent)
    | inr gone ↦
        rw gone (cleanup_returns cs (handled ++ c.trigger ∷ []) (sent ++ deletes c.id ∷ []))
  ]

-- A pass that throws has deleted nothing; one that returns has deleted only commands of the creator
-- with a trigger that was not registered.
abbrev pub Respects :
    String → List Command → Result Failure (List Registered) × List Request → Type 0
Respects creator existing (err e, sent) = All (IsAllowed creator existing (λ c. false)) sent
Respects creator existing (ok done, sent) =
    All (IsAllowed creator existing (unregistered done)) sent

Respects-continue :
    (creator : String) (existing : List Command) (done : List Registered)
    (x : Result Failure (Unit {0}) × List Request)
    → x.0 ≡ ok tt
    → All (IsAllowed creator existing (unregistered done)) x.1
    → Respects creator existing (continue x (λ _. pure done))
Respects-continue creator existing done (ok u, later) e h = h
Respects-continue creator existing done (err f, later) e h = absurd (cc)

with_cleanup-Respects :
    (server : Server) (creator : String) (existing : List Command) (cleans : Bool)
    (x : Result Failure (List Registered) × List Request)
    → ((stale : Command → Bool) → All (IsAllowed creator existing stale) x.1)
    → Respects creator existing (continue x (with_cleanup server creator existing cleans))
with_cleanup-Respects server creator existing cleans (err e, later) h = h (λ c. false)
with_cleanup-Respects server creator existing false (ok done, later) h = h (unregistered done)
with_cleanup-Respects server creator existing true (ok done, later) h =
    Respects-continue creator existing done (cleanup server creator done existing [] later)
      (cleanup_returns server creator existing done existing [] later)
      (cleanup-Sends server creator existing done existing (any_self existing) [] later
        (h (unregistered done)))

-- Whatever the server answers, a registration creates only commands with triggers that no listed
-- command has, and updates only listed commands that the bot created, under their own triggers; if
-- it throws it has deleted nothing, and if it returns it has deleted only listed commands that the
-- bot created and whose triggers it did not register.
pub register_commands-Respects :
    (server : Server) (team creator url : String) (existing : List Command)
    (specs : List (Bool × Spec))
    → Respects
        (trim creator)
        existing
        (register_commands server team creator url (ok existing) specs [])
unfolding register_commands
register_commands-Respects server team creator url existing specs =
    elim (Bool-cases (is_empty (trim creator))) [
      | inl nobody ↦ rw nobody tt
      | inr bot ↦ rw bot (
          with_cleanup-Respects server (trim creator) existing (has_specs specs)
            (register_loop server team (trim creator) url existing specs [] [])
            (λ stale. loop-Sends server (trim creator) existing stale team url specs [] [] tt))
    ]

-- ===== src/Slash/Registration.antt =====
-- src/mattermost/slash-commands.ts: `registerSlashCommands` and `reconcileMattermostCommandTrigger`.
-- The server is a function: what it answers to a request may depend on all the requests before.
use openclaw_mattermost_cust.Base.{
  Bool, true, false, not, ◌||◌, String, ◌==◌, Option, none, some, List, [], ◌∷◌, ◌++◌, any,
  if◌then◌else◌, Result, ok, err,
}
use openclaw_mattermost_cust.Base.Text.{trim, is_empty}
use openclaw_mattermost_cust.Slash.Requests.{
  Command, Spec, Registered, Request, reads, creates, updates, deletes, Failure, throws, no_creator,
  aborted, Server, M, ◌>>=◌, pure, throw, registered_as, settings_for, drifted, create_or_skip,
  is_owned, owned_for, is_taken, candidate_triggers, with_registered, has_trigger, delete_or_skip,
  has_specs,
}

-- The tests that let the cleanup pass a command by.
abbrev pub is_spared : String → List Registered → List String → Command → Bool
is_spared creator done handled c =
    not (is_owned creator c) || has_trigger c.trigger done || any (λ t. t == c.trigger) handled

module _ (server : Server) where
  abbrev pub send : Request → M Command
  send r sent = (server sent r, sent ++ r ∷ [])

  abbrev pub detailed_token : M Command → M String
  detailed_token m = m >>= λ c. if is_empty c.token then throw throws else pure c.token

  unfoldable pub resolve_reused_token : Command → M String
  resolve_reused_token c =
      if is_empty c.token then detailed_token (send (reads c.id)) else pure c.token

  unfoldable pub reuse : String → String → String → Command → M (Option Registered)
  reuse team url trigger c =
      resolve_reused_token c >>= λ token. pure (some (registered_as team url trigger false c token))

  -- With the first owned command, if there is one.
  unfoldable pub reconcile : String → String → String → Spec → List Command → M (Option Registered)
  unfolding reuse
  reconcile team url trigger spec [] = create_or_skip (
      send (creates (settings_for team url trigger spec)) >>= λ c.
      pure (registered_as team url trigger true c c.token))
  reconcile team url trigger spec (c ∷ extra) =
      if drifted url c
      then (send (updates c.id (settings_for team url trigger spec)) >>= λ updated.
          reuse team url trigger updated)
      else reuse team url trigger c

  -- The first candidate that no other integration holds alone.
  unfoldable pub reconcile_candidates :
      String → String → String → List Command → Spec → List String → M (Option Registered)
  reconcile_candidates team creator url existing spec [] = pure none
  reconcile_candidates team creator url existing spec (t ∷ ts) =
      let rest = reconcile_candidates team creator url existing spec ts in
      if is_taken creator existing t
      then rest
      else reconcile team url t spec (owned_for creator t existing)

  -- The loop over the commands; the flags say for each whether the signal has fired before it.
  unfoldable pub register_loop :
      String
      → String
      → String
      → List Command
      → List (Bool × Spec)
      → List Registered
      → M (List Registered)
  register_loop team creator url existing [] done = pure done
  register_loop team creator url existing ((is_aborted, spec) ∷ specs) done =
      if is_aborted
      then throw aborted
      else (reconcile_candidates team creator url existing spec (candidate_triggers spec) >>= λ r.
          register_loop team creator url existing specs (with_registered r done))

  -- The cleanup; `handled` are the triggers of which one command was deleted.
  unfoldable pub cleanup : String → List Registered → List Command → List String → M (Unit {0})
  cleanup creator done [] handled = pure tt
  cleanup creator done (c ∷ cs) handled =
      let deleting = delete_or_skip (send (deletes c.id)) >>= λ _.
      cleanup creator done cs (handled ++ c.trigger ∷ []) in
      let keeping = cleanup creator done cs handled in
      if is_spared creator done handled c then keeping else deleting

  abbrev pub with_cleanup : String → List Command → Bool → List Registered → M (List Registered)
  with_cleanup creator existing cleans done =
      if cleans then (cleanup creator done existing [] >>= λ _. pure done) else pure done

  -- `listed` is what listing the team's commands returned.
  unfoldable pub register_commands :
      String
      → String
      → String
      → Result Failure (List Command)
      → List (Bool × Spec)
      → M (List Registered)
  unfolding trim
  register_commands team creator_id url (err e) specs =
      if is_empty (trim creator_id) then throw no_creator else throw e
  register_commands team creator_id url (ok existing) specs =
      if is_empty (trim creator_id)
      then throw no_creator
      else (register_loop team (trim creator_id) url existing specs [] >>= λ done.
          with_cleanup (trim creator_id) existing (has_specs specs) done)

-- ===== src/Reactions/Handover.antt =====
-- src/mattermost/monitor-turn-reactions.ts: the ends of a lifecycle, where a controller is handed to a
-- new owner and where an owner finishes.
use openclaw_mattermost_cust.Base.{
  ℕ, ◌≡◌, refl, ◌<◌, true, false, String, eq_refl, Option, none, some, List, [], ◌∷◌, eqb, eqb_iff,
  arith, sym, ap,
}
use openclaw_mattermost_cust.Reactions.Lifecycle.{
  Lifecycles, write, holds, create_group, attach, group_in, close_entry, detach_from, detach,
  transfer, finish_of, finish, update, as_owner, settle,
}
use openclaw_mattermost_cust.Reactions.Custody.{IsValid}

detach_next : (session : String) (c : ℕ) (s : Lifecycles) → (detach session c s).next ≡ s.next
unfolding detach
detach_next session c s = of_group (group_in (s.by_controller c) session s)
  where
    of_group : (g : Option ℕ) → (detach_from g session c s).next ≡ s.next
    of_group none = refl
    of_group (some g) = ground arith

eqb_same : (n : ℕ) → eqb n n ≡ true
eqb_same n = ground (arith, eqb_iff n n)

update-create_group :
    (session : String) (owner c : ℕ) (s : Lifecycles)
    → update session owner (create_group session owner c s) ≡ some (c ∷ [])
unfolding update
update-create_group session owner c s =
    let own : write owner (some s.next) s.by_owner owner ≡ some s.next = rw (eqb_same owner) refl in
    rw (own, eqb_same s.next, eq_refl session, eqb_same s.next) refl

settle-create_group :
    (session : String) (owner c g : ℕ) (s : Lifecycles)
    → g < s.next
    → settle g c (create_group session owner c s) ≡ (false, create_group session owner c s)
unfolding settle
settle-create_group session owner c g s old =
    let newer : eqb s.next g ≡ false = ground (arith, eqb_iff s.next g) in
    rw (eqb_same c, newer) refl

-- A controller that is transferred from its group to another owner is safe from the old group: the
-- terminal step of the old group's `finish` calls nothing on it and changes nothing; and the new
-- owner's group is the controller alone. The state is valid.
pub transfer-settle :
    (session : String) (owner c g : ℕ) (s : Lifecycles)
    → IsValid s
    → s.by_controller c ≡ some g
    → eqb (s.groups g).owner owner ≡ false
    → (settle g c (transfer session owner c s) ≡ (false, transfer session owner c s))
      × (update session owner (transfer session owner c s) ≡ some (c ∷ []))
unfolding transfer
transfer-settle session owner c g s v here other =
    let old : g < (detach session c s).next = rw (detach_next session c s) (v.current c g here).0 in
    rw (here, other)
      (
        settle-create_group session owner c g (detach session c s) old,
        update-create_group session owner c (detach session c s),
      )

-- After an owner has finished a group that is the entry of its session, `update` finds no group of
-- the owner, and the next post of the session becomes an owner itself instead of joining.
pub finish-attach :
    (session : String) (owner owner' c g : ℕ) (cs : List ℕ) (s s' : Lifecycles)
    → finish session owner s ≡ (some (g, cs), s')
    → s.entries session ≡ some g
    → (update session owner s' ≡ none) × ((attach session owner' c true s').0 ≡ as_owner)
unfolding finish update attach
finish-attach session owner owner' c g cs s s' e here =
    of_group (group_in (s.by_owner owner) session s) e
  where
    of_group :
        (h : Option ℕ)
        → finish_of h session owner s ≡ (some (g, cs), s')
        → (update session owner s' ≡ none) × ((attach session owner' c true s').0 ≡ as_owner)
    of_group none e = absurd (cc)
    of_group (some h) e =
        let same : h ≡ g = ground arith in
        let after : s'
            ≡ close_entry session h (record s { by_owner = write owner none s.by_owner }) =
          sym (ap (λ m. m.1) e) in
        let at : holds (s.entries session) h ≡ true = rw (here, same) (eqb_same g) in
        let gone : write owner none s.by_owner owner ≡ none = rw (eqb_same owner) refl in
        rw (after, at) (rw gone refl, rw (eq_refl session) refl)

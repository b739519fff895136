-- ===== src/Reactions/Lifecycle.antt =====
-- src/mattermost/monitor-turn-reactions.ts: `createMattermostReactionLifecycleStore`. Groups are
-- objects that three maps share, so a group has an address, `groups` is the memory and `next` the
-- next free address; owners and controllers are the numbers of their objects.
use openclaw_mattermost_cust.Base.{
  ℕ, suc, Bool, true, false, String, ◌==◌, Option, none, some, List, [], ◌∷◌, ◌++◌, any, eqb,
  if◌then◌else◌,
}
use openclaw_mattermost_cust.Base.Table.{delete_where}

pub record Group : Type 0 where
  pub session_key : String
  pub owner : ℕ
  pub controllers : List ℕ

pub data Registration : Type 0 where
  as_owner as_joined as_standalone : Registration

pub record Lifecycles : Type 0 where
  pub entries : String → Option ℕ
  pub by_owner : ℕ → Option ℕ
  pub by_controller : ℕ → Option ℕ
  pub groups : ℕ → Group
  pub next : ℕ

abbrev pub no_lifecycles : Lifecycles
no_lifecycles = record {
  entries = λ k. none;
  by_owner = λ o. none;
  by_controller = λ c. none;
  groups = λ g. record { session_key = ""; owner = 0; controllers = [] };
  next = 0;
}

-- `set` and `delete` of a Map, as a change of the function that reads it.
abbrev pub write {ℓ} : {A : Type ℓ} → ℕ → A → (ℕ → A) → ℕ → A
write k v f x = if eqb x k then v else f x

abbrev pub write_key {ℓ} : {A : Type ℓ} → String → A → (String → A) → String → A
write_key k v f x = if x == k then v else f x

-- The operations of a Set of controllers.
abbrev pub has_controller : ℕ → List ℕ → Bool
has_controller c cs = any (λ d. eqb d c) cs

abbrev pub add_controller : ℕ → List ℕ → List ℕ
add_controller c cs = if has_controller c cs then cs else cs ++ c ∷ []

abbrev pub delete_controller : ℕ → List ℕ → List ℕ
delete_controller c cs = delete_where (λ d. eqb d c) cs

abbrev pub is_none_left : List ℕ → Bool
is_none_left [] = true
is_none_left (c ∷ cs) = false

abbrev pub holds : Option ℕ → ℕ → Bool
holds none g = false
holds (some h) g = eqb h g

abbrev pub create_group : String → ℕ → ℕ → Lifecycles → Lifecycles
create_group session owner c s = record {
  entries = write_key session (some s.next) s.entries;
  by_owner = write owner (some s.next) s.by_owner;
  by_controller = write c (some s.next) s.by_controller;
  groups =
      write s.next (record { session_key = session; owner = owner; controllers = c ∷ [] }) s.groups;
  next = suc s.next;
}

abbrev pub join_group : ℕ → ℕ → Lifecycles → Lifecycles
join_group g c s = record s {
  groups =
      write g (record (s.groups g) { controllers = add_controller c (s.groups g).controllers })
        s.groups;
  by_controller = write c (some g) s.by_controller;
}

abbrev pub attach_to : Option ℕ → String → ℕ → ℕ → Bool → Lifecycles → Registration × Lifecycles
attach_to none session owner c allow_join s = (as_owner, create_group session owner c s)
attach_to (some g) session owner c allow_join s =
    if allow_join then (as_joined, join_group g c s) else (as_standalone, s)

unfoldable pub attach : String → ℕ → ℕ → Bool → Lifecycles → Registration × Lifecycles
attach session owner c allow_join s = attach_to (s.entries session) session owner c allow_join s

-- The group of an owner, if it is of the session.
abbrev pub group_in : Option ℕ → String → Lifecycles → Option ℕ
group_in none session s = none
group_in (some g) session s = if (s.groups g).session_key == session then some g else none

abbrev pub update_of : Option ℕ → Lifecycles → Option (List ℕ)
update_of none s = none
update_of (some g) s = some (s.groups g).controllers

-- The controllers that `update` calls `apply` on, or none where it returns false.
unfoldable pub update : String → ℕ → Lifecycles → Option (List ℕ)
update session owner s = update_of (group_in (s.by_owner owner) session s) s

-- The entry of the session is deleted if it is the group.
abbrev pub close_entry : String → ℕ → Lifecycles → Lifecycles
close_entry session g s =
    if holds (s.entries session) g
    then record s { entries = write_key session none s.entries }
    else s

abbrev pub close_group : String → ℕ → Lifecycles → Lifecycles
close_group session g s =
    close_entry session g (record s { by_owner = write (s.groups g).owner none s.by_owner })

abbrev pub leave_group : ℕ → ℕ → Lifecycles → Lifecycles
leave_group g c s = record s {
  groups =
      write g (record (s.groups g) { controllers = delete_controller c (s.groups g).controllers })
        s.groups;
  by_controller = write c none s.by_controller;
}

abbrev pub detach_from : Option ℕ → String → ℕ → Lifecycles → Lifecycles
detach_from none session c s = s
detach_from (some g) session c s =
    let left = leave_group g c s in
    if is_none_left (left.groups g).controllers then close_group session g left else left

unfoldable pub detach : String → ℕ → Lifecycles → Lifecycles
detach session c s = detach_from (group_in (s.by_controller c) session s) session c s

abbrev pub is_owned : Option ℕ → ℕ → Lifecycles → Bool
is_owned none owner s = false
is_owned (some g) owner s = eqb (s.groups g).owner owner

-- Without a previous group `detach` returns at once, so it is called here either way.
unfoldable pub transfer : String → ℕ → ℕ → Lifecycles → Lifecycles
transfer session owner c s =
    if is_owned (s.by_controller c) owner s
    then s
    else create_group session owner c (detach session c s)

abbrev pub finish_of : Option ℕ → String → ℕ → Lifecycles → Option (ℕ × List ℕ) × Lifecycles
finish_of none session owner s = (none, s)
finish_of (some g) session owner s = (
  some (g, (s.groups g).controllers),
  close_entry session g (record s { by_owner = write owner none s.by_owner }),
)

-- `finish` before it awaits: the group and its controllers, or none where it returns false.
unfoldable pub finish : String → ℕ → Lifecycles → Option (ℕ × List ℕ) × Lifecycles
finish session owner s = finish_of (group_in (s.by_owner owner) session s) session owner s

-- `finish` for one controller after the await: whether `apply` is called on it.
unfoldable pub settle : ℕ → ℕ → Lifecycles → Bool × Lifecycles
settle g c s =
    if holds (s.by_controller c) g
    then (true, record s { by_controller = write c none s.by_controller })
    else (false, s)

-- A call of the store; `settles` is the part of `finish` that runs after it awaited.
pub data Call : Type 0 where
  attaches : String → ℕ → ℕ → Bool → Call
  detaches : String → ℕ → Call
  transfers : String → ℕ → ℕ → Call
  finishes : String → ℕ → Call
  settles : ℕ → ℕ → Call

unfoldable pub step : Call → Lifecycles → Lifecycles
step (attaches session owner c allow_join) s = (attach session owner c allow_join s).1
step (detaches session c) s = detach session c s
step (transfers session owner c) s = transfer session owner c s
step (finishes session owner) s = (finish session owner s).1
step (settles g c) s = (settle g c s).1

unfoldable pub run : List Call → Lifecycles → Lifecycles
run [] s = s
run (call ∷ calls) s = run calls (step call s)

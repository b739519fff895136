-- ===== src/Reactions/Custody.antt =====
-- src/mattermost/monitor-turn-reactions.ts: which group may end a controller's lifecycle.
use openclaw_mattermost_cust.Base.{
  ℕ, ◌≡◌, ◌<◌, Bool, true, false, ◌||◌, String, eq_iff, Option, none, some, List, [], ◌∷◌, ◌++◌,
  eqb, eqb_iff, arith, inl, inr, Bool-cases, Option-cases,
}
use openclaw_mattermost_cust.Reactions.Lifecycle.{
  Lifecycles, write, has_controller, add_controller, delete_controller, holds, create_group,
  join_group, attach_to, attach, group_in, close_entry, leave_group, detach_from, detach, is_owned,
  transfer, finish_of, finish, Call, attaches, detaches, transfers, finishes, settles, step, run,
  settle, is_none_left,
}

-- What the maps of the store agree on: a controller's group holds the controller, and the entry of a
-- session is a group of the session; and both have been created.
pub record IsValid (s : Lifecycles) : Type 0 where
  pub current :
      (c g : ℕ)
      → s.by_controller c ≡ some g
      → (g < s.next) × (has_controller c (s.groups g).controllers ≡ true)
  pub entered :
      (k : String) (g : ℕ) → s.entries k ≡ some g → (g < s.next) × ((s.groups g).session_key ≡ k)

has-append_one :
    (c d : ℕ) (cs : List ℕ) → has_controller d (cs ++ c ∷ []) ≡ (has_controller d cs || eqb c d)
has-append_one c d [] = ground arith
has-append_one c d (x ∷ cs) = ground (arith, has-append_one c d cs)

has-add_controller :
    (c d : ℕ) (cs : List ℕ)
    → has_controller d cs ≡ true
    → has_controller d (add_controller c cs) ≡ true
has-add_controller c d cs h = ground (arith, has-append_one c d cs)

has-added : (c : ℕ) (cs : List ℕ) → has_controller c (add_controller c cs) ≡ true
has-added c cs = ground (arith, has-append_one c c cs, eqb_iff c c)

has-delete_controller :
    (c d : ℕ) (cs : List ℕ)
    → eqb d c ≡ false
    → has_controller d cs ≡ true
    → has_controller d (delete_controller c cs) ≡ true
has-delete_controller c d [] n h = absurd (cc)
has-delete_controller c d (x ∷ cs) n h =
    ground (arith, has-delete_controller c d cs n, eqb_iff x c, eqb_iff x d, eqb_iff d c)

create_group-IsValid :
    (session : String) (owner c : ℕ) (s : Lifecycles)
    → IsValid s
    → IsValid (create_group session owner c s)
create_group-IsValid session owner c s v = record {
  current = λ d g e. ground (arith, v.current d g, eqb_iff g s.next, eqb_iff d c);
  entered = λ k g e. ground (arith, v.entered k g, eqb_iff g s.next, eq_iff k session);
}

join_group-IsValid :
    (k : String) (g c : ℕ) (s : Lifecycles)
    → s.entries k ≡ some g
    → IsValid s
    → IsValid (join_group g c s)
join_group-IsValid k g c s here v = record {
  current = λ d h e. ground (
    arith,
    v.current d h,
    v.entered k g here,
    eqb_iff h g,
    eqb_iff d c,
    has-add_controller c d (s.groups g).controllers,
    has-added c (s.groups g).controllers,
  );
  entered = λ j h e. ground (arith, v.entered j h, eqb_iff h g);
}

leave_group-IsValid : (g c : ℕ) (s : Lifecycles) → IsValid s → IsValid (leave_group g c s)
leave_group-IsValid g c s v = record {
  current = λ d h e.
      ground
        (arith, v.current d h, eqb_iff h g, has-delete_controller c d (s.groups g).controllers);
  entered = λ j h e. ground (arith, v.entered j h, eqb_iff h g);
}

close_entry-IsValid :
    (session : String) (g : ℕ) (s : Lifecycles) → IsValid s → IsValid (close_entry session g s)
close_entry-IsValid session g s v = elim (Bool-cases (holds (s.entries session) g)) [
  | inl own ↦
      rw own (record { current = v.current; entered = λ k h e. ground (arith, v.entered k h) })
  | inr other ↦ rw other v
]

detach-IsValid :
    (session : String) (c : ℕ) (s : Lifecycles) → IsValid s → IsValid (detach session c s)
unfolding detach
detach-IsValid session c s v = from_group (group_in (s.by_controller c) session s)
  where
    from_group : (g : Option ℕ) → IsValid (detach_from g session c s)
    from_group none = v
    from_group (some g) =
        let left = leave_group g c s in
        let kept : IsValid left = leave_group-IsValid g c s v in
        elim (Bool-cases (is_none_left (left.groups g).controllers)) [
          | inl empty ↦ rw empty (
              close_entry-IsValid session g
                (record left { by_owner = write (left.groups g).owner none left.by_owner })
                (record { current = kept.current; entered = kept.entered }))
          | inr full ↦ rw full kept
        ]

transfer-IsValid :
    (session : String) (owner c : ℕ) (s : Lifecycles)
    → IsValid s
    → IsValid (transfer session owner c s)
unfolding transfer
transfer-IsValid session owner c s v = elim (Bool-cases (is_owned (s.by_controller c) owner s)) [
  | inl same ↦ rw same v
  | inr other ↦
      rw other
        (create_group-IsValid session owner c (detach session c s) (detach-IsValid session c s v))
]

attach-IsValid :
    (session : String) (owner c : ℕ) (allow_join : Bool) (s : Lifecycles)
    → IsValid s
    → IsValid (attach session owner c allow_join s).1
unfolding attach
attach-IsValid session owner c allow_join s v = elim (Option-cases (s.entries session)) [
  | inl free ↦ rw free (create_group-IsValid session owner c s v)
  | inr (g, here) ↦ rw here (joined_or_not g here allow_join)
]
  where
    joined_or_not :
        (g : ℕ)
        → s.entries session ≡ some g
        → (allowed : Bool) → IsValid (attach_to (some g) session owner c allowed s).1
    joined_or_not g here true = join_group-IsValid session g c s here v
    joined_or_not g here false = v

finish-IsValid :
    (session : String) (owner : ℕ) (s : Lifecycles) → IsValid s → IsValid (finish session owner s).1
unfolding finish
finish-IsValid session owner s v = of_group (group_in (s.by_owner owner) session s)
  where
    of_group : (g : Option ℕ) → IsValid (finish_of g session owner s).1
    of_group none = v
    of_group (some g) =
        close_entry-IsValid session g (record s { by_owner = write owner none s.by_owner })
          (record { current = v.current; entered = v.entered })

settle-IsValid : (g c : ℕ) (s : Lifecycles) → IsValid s → IsValid (settle g c s).1
unfolding settle
settle-IsValid g c s v = elim (Bool-cases (holds (s.by_controller c) g)) [
  | inl mine ↦
      rw mine (record { current = λ d h e. ground (arith, v.current d h); entered = v.entered })
  | inr gone ↦ rw gone v
]

step-IsValid : (call : Call) (s : Lifecycles) → IsValid s → IsValid (step call s)
unfolding step
step-IsValid (attaches session owner c allow_join) s v =
    attach-IsValid session owner c allow_join s v
step-IsValid (detaches session c) s v = detach-IsValid session c s v
step-IsValid (transfers session owner c) s v = transfer-IsValid session owner c s v
step-IsValid (finishes session owner) s v = finish-IsValid session owner s v
step-IsValid (settles g c) s v = settle-IsValid g c s v

-- However the store is used from a valid state, the maps agree: a controller's group was created
-- and holds the controller, and the entry of a session is a group of that session.
pub run-keeps_maps : (calls : List Call) (s : Lifecycles) → IsValid s → IsValid (run calls s)
unfolding run
run-keeps_maps [] s v = v
run-keeps_maps (call ∷ calls) s v = run-keeps_maps calls (step call s) (step-IsValid call s v)

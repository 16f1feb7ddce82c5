-- ===== src/Missions/Delivery.antt =====
-- The delivery of a mission.
use frank.Prelude.{
  ℕ, ◌≡◌, refl, sym, subst, Bool, true, not, ◌&&◌, Option, none, some, List, [], ◌∷◌, ◌++◌, find,
  eq_refl, is_some_and, arith, ok,
}
use frank.Protocol.Mission
use frank.Protocol.Status.{OperationKind}
use frank.Protocol.Records.{OperationView, Snapshot, Env, Reduced}
use frank.Tasks.Feed.{find_mission}
use frank.Tasks.Provision.{new_operation}
use frank.Missions.{delivers, unfinished, start_delivery, reduce_deliver_mission}

find-append :
    (p : OperationView → Bool) (xs : List OperationView) (x : OperationView)
    → find p xs ≡ none
    → p x ≡ true
    → find p (xs ++ (x ∷ [])) ≡ some x
find-append p [] x h e = ground (arith, e)
find-append p (y ∷ xs) x h e = ground (arith, h, e, find-append p xs x)

module _ (env : Env) (s : Snapshot) (mission_id : ℕ) (r : Reduced) where
  delivered :
      reduce_deliver_mission env s mission_id ≡ ok r
      → (is_some_and
            (find_mission mission_id s.missions)
            (λ m. Mission.is_completed m.status && not (unfinished mission_id s.tasks))
          ≡ true)
        × (r ≡ start_delivery env s mission_id (find (delivers env mission_id) s.operations))
  unfolding reduce_deliver_mission
  delivered h = (ground (arith, h), ground (arith, h))

  -- A delivery is accepted only for a Completed mission whose tasks are all Done, and to ask for it
  -- again changes nothing: the answer is the same operation.
  pub deliver_mission_idempotent :
      reduce_deliver_mission env s mission_id ≡ ok r
      → (is_some_and
            (find_mission mission_id s.missions)
            (λ m. Mission.is_completed m.status && not (unfinished mission_id s.tasks))
          ≡ true)
        × (reduce_deliver_mission env r.0 mission_id ≡ ok r)
  unfolding reduce_deliver_mission start_delivery
  deliver_mission_idempotent h =
      let (ready, e) = delivered h in
      (
        ready,
        subst (λ (q : Reduced). reduce_deliver_mission env q.0 mission_id ≡ ok q) (sym e)
            (again (find (delivers env mission_id) s.operations) refl),
      )
    where
      again :
          (o : Option OperationView)
          → find (delivers env mission_id) s.operations ≡ o
          → reduce_deliver_mission env (start_delivery env s mission_id o).0 mission_id
            ≡ ok (start_delivery env s mission_id o)
      again none q =
          let operation =
            new_operation env s.draws OperationKind.push_mission (env.show_uuid mission_id)
              "queued" in
          ground (
            arith,
            h,
            find-append (delivers env mission_id) s.operations operation q
                (ground (arith, eq_refl (env.show_uuid mission_id))),
          )
      again (some operation) q = ground (arith, h, q)

-- ===== src/Tracking/Feed/Balance.antt =====
-- Each step keeps the leases balanced while the connection stays.
use mathlib.Core.Path.{subst}
use bambu_gateway.Prelude.{
  ℕ, ◌+◌, ◌≡◌, refl, sym, ap, ◌∙◌, Bool, true, false, Option, none, some, List, [], ◌∷◌, arith,
  if◌then◌else◌, nat_beq, nat_eq,
}
use bambu_gateway.Prelude.Dict
use bambu_gateway.Prelude.Dict.{Dict, lookup-insert}
use bambu_gateway.Tracking.Broker.{Library, Snapshot}
use bambu_gateway.Tracking.Feed.{
  Call, acquired, released, Phase, calling, entered, releasing, registered, leaving, gone, Feed,
  enqueued, enqueue_all, fan_out, publish_report, call_if, move, begin_subscribe, run_acquire,
  add_subscriber, drop_subscriber, read_release, run_release, after_cancel, total, run_transfer,
  Work, reports, publishes, begins, acquires, registers, leaves, reads, releases, cancels, moves,
}
use bambu_gateway.Tracking.Feed.Holds.{
  times_acquired, times_released, share, leases_held, total-insert_new, total-insert,
  total-enqueue_all, leases_held-enqueued, Uses, AllUse, insert-AllUse, enqueued-Uses,
  after_cancel-Uses, leases_held-after_cancel,
}

pub record IsBalanced (conn : Option ℕ) (h : Feed) : Type 0 where
  pub acquire : h.acquire_connection ≡ conn
  pub release : h.release_connection ≡ conn
  pub still : h.transfers ≡ []
  pub uses : AllUse conn h.tasks
  pub leases :
      (c : ℕ)
      → times_acquired c h.calls ≡ times_released c h.calls + total (leases_held conn c) h.tasks

acquire_once :
    (o : Option ℕ) (c n : ℕ) (calls : List Call)
    → times_acquired c calls ≡ times_released c calls + n
    → times_acquired c (call_if acquired o calls)
      ≡ times_released c (call_if acquired o calls) + (n + share o c)
unfolding times_acquired times_released share
acquire_once none c n calls h = omega (arith, h)
acquire_once (some d) c n calls h = ground arith

release_once :
    (o : Option ℕ) (c n : ℕ) (calls : List Call)
    → times_acquired c calls ≡ times_released c calls + (n + share o c)
    → times_acquired c (call_if released o calls) ≡ times_released c (call_if released o calls) + n
unfolding times_acquired times_released share
release_once none c n calls h = omega (arith, h)
release_once (some d) c n calls h = ground arith

-- A move to a phase that leases_held as much.
move-IsBalanced :
    (conn : Option ℕ) (h : Feed) (id : ℕ) (old p : Phase)
    → Dict.lookup id h.tasks ≡ some old
    → Uses conn p
    → ((c : ℕ) → leases_held conn c p ≡ leases_held conn c old)
    → IsBalanced conn h
    → IsBalanced conn (move id p h)
move-IsBalanced conn h id old p there u same b = record {
  acquire = b.acquire;
  release = b.release;
  still = b.still;
  uses = insert-AllUse conn id p h.tasks u b.uses;
  leases = λ c.
      omega (arith, b.leases c, same c, total-insert (leases_held conn c) id p old h.tasks there);
}

abbrev enqueued_in : ℕ → Snapshot → Option Phase → Option Phase
enqueued_in maxsize s none = none
enqueued_in maxsize s (some p) = some (enqueued maxsize s p)

lookup-enqueue_all :
    (maxsize id : ℕ) (s : Snapshot) (d : Dict ℕ Phase)
    → Dict.lookup id (enqueue_all maxsize s d) ≡ enqueued_in maxsize s (Dict.lookup id d)
unfolding enqueue_all Dict.lookup
lookup-enqueue_all maxsize id s [] = refl
lookup-enqueue_all maxsize id s ((j, p) ∷ d) =
    by_key (nat_beq j id) (lookup-enqueue_all maxsize id s d)
  where
    by_key :
        (b : Bool)
        → Dict.lookup id (enqueue_all maxsize s d) ≡ enqueued_in maxsize s (Dict.lookup id d)
        → (if b then some (enqueued maxsize s p) else Dict.lookup id (enqueue_all maxsize s d))
          ≡ enqueued_in maxsize s (if b then some p else Dict.lookup id d)
    by_key true rest = refl
    by_key false rest = rest

enqueue_all-AllUse :
    (conn : Option ℕ) (maxsize : ℕ) (s : Snapshot) (d : Dict ℕ Phase)
    → AllUse conn d
    → AllUse conn (enqueue_all maxsize s d)
enqueue_all-AllUse conn maxsize s d all id p e =
    by_old (Dict.lookup id d) (all id) (sym (lookup-enqueue_all maxsize id s d) ∙ e)
  where
    by_old :
        (o : Option Phase)
        → ((q : Phase) → o ≡ some q → Uses conn q)
        → enqueued_in maxsize s o ≡ some p
        → Uses conn p
    by_old none old f = absurd cc
    by_old (some q) old f =
        let same : enqueued maxsize s q ≡ p = cc in
        subst (Uses conn) same (enqueued-Uses conn maxsize s q (old q refl))

fan_out-IsBalanced :
    (conn : Option ℕ) (s : Snapshot) (h : Feed) → IsBalanced conn h → IsBalanced conn (fan_out s h)
unfolding fan_out
fan_out-IsBalanced conn s h b = record {
  acquire = b.acquire;
  release = b.release;
  still = b.still;
  uses = enqueue_all-AllUse conn h.max_queue_size s h.tasks b.uses;
  leases = λ c. omega (
    arith,
    b.leases c,
    total-enqueue_all (leases_held conn c) h.max_queue_size s h.tasks
        (leases_held-enqueued conn c h.max_queue_size s),
  );
}

begins-IsBalanced :
    (conn : Option ℕ) (h : Feed) (id : ℕ)
    → Dict.lookup id h.tasks ≡ none
    → IsBalanced conn h
    → IsBalanced conn (begin_subscribe id h)
unfolding begin_subscribe leases_held
begins-IsBalanced conn h id new b = record {
  acquire = b.acquire;
  release = b.release;
  still = b.still;
  uses = insert-AllUse conn id _ h.tasks b.acquire b.uses;
  leases = λ c. omega (
    arith,
    b.leases c,
    total-insert_new (leases_held conn c) id (calling h.acquire_connection) h.tasks new,
  );
}

acquires-IsBalanced :
    (conn : Option ℕ) (h : Feed) (id : ℕ) (o : Option ℕ)
    → Dict.lookup id h.tasks ≡ some (calling o)
    → IsBalanced conn h
    → IsBalanced conn (run_acquire id o h)
unfolding run_acquire leases_held
acquires-IsBalanced conn h id o there b = record {
  acquire = b.acquire;
  release = b.release;
  still = b.still;
  uses = insert-AllUse conn id (entered o) h.tasks (b.uses id (calling o) there) b.uses;
  leases = λ c.
      let grown = total-insert (leases_held conn c) id (entered o) (calling o) h.tasks there in
      let called = acquire_once o c (total (leases_held conn c) h.tasks) h.calls (b.leases c) in
      omega (arith, grown, called);
}

releases-IsBalanced :
    (conn : Option ℕ) (h : Feed) (id : ℕ) (o : Option ℕ)
    → Dict.lookup id h.tasks ≡ some (releasing o)
    → IsBalanced conn h
    → IsBalanced conn (run_release id o h)
unfolding run_release leases_held
releases-IsBalanced conn h id o there b = record {
  acquire = b.acquire;
  release = b.release;
  still = b.still;
  uses = insert-AllUse conn id gone h.tasks tt b.uses;
  leases = λ c.
      let left = total-insert (leases_held conn c) id gone (releasing o) h.tasks there in
      release_once o c (total (leases_held conn c) (Dict.insert id gone h.tasks)) h.calls
        (omega (arith, left, b.leases c));
}

run_transfer-IsBalanced :
    (conn : Option ℕ) (h : Feed) → IsBalanced conn h → IsBalanced conn (run_transfer h)
unfolding run_transfer
run_transfer-IsBalanced conn h b = by_calls h.transfers b.still
  where
    by_calls :
        (t : List Call)
        → t ≡ []
        → IsBalanced conn
            (elim t [ [] ↦ h | c ∷ rest ↦ record h { transfers = rest; calls = c ∷ h.calls } ])
    by_calls [] e = b
    by_calls (c ∷ rest) e = absurd cc

pub Work-IsBalanced :
    (py : Library) (conn : Option ℕ) (h k : Feed)
    → Work py h k
    → IsBalanced conn h
    → IsBalanced conn k
unfolding publish_report add_subscriber drop_subscriber read_release leases_held
Work-IsBalanced py conn h _ (reports now report) b = fan_out-IsBalanced conn _ _ (record {
  acquire = b.acquire;
  release = b.release;
  still = b.still;
  uses = b.uses;
  leases = b.leases;
})
Work-IsBalanced py conn h _ (publishes c) b = fan_out-IsBalanced conn _ _ (record {
  acquire = b.acquire;
  release = b.release;
  still = b.still;
  uses = b.uses;
  leases = b.leases;
})
Work-IsBalanced py conn h _ (begins id new) b = begins-IsBalanced conn h id new b
Work-IsBalanced py conn h _ (acquires id o there) b = acquires-IsBalanced conn h id o there b
Work-IsBalanced py conn h _ (registers id o there) b =
    move-IsBalanced conn h id (entered o) _ there tt
      (λ c. ap (λ x. share x c) (sym (b.uses id (entered o) there))) b
Work-IsBalanced py conn h _ (leaves id q there) b =
    move-IsBalanced conn h id (registered q) leaving there tt (λ c. refl) b
Work-IsBalanced py conn h _ (reads id there) b =
    move-IsBalanced conn h id leaving _ there b.release (λ c. ap (λ x. share x c) b.release) b
Work-IsBalanced py conn h _ (releases id o there) b = releases-IsBalanced conn h id o there b
Work-IsBalanced py conn h _ (cancels id p there) b =
    move-IsBalanced conn h id p (after_cancel p) there
      (after_cancel-Uses conn p (b.uses id p there)) (λ c. leases_held-after_cancel conn c p) b
Work-IsBalanced py conn h _ moves b = run_transfer-IsBalanced conn h b

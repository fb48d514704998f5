-- ===== src/Tracking/Feed/Holds.antt =====
-- The leases that the runs of `subscribe` hold, and what a step of one changes in their sum.
use mathlib.Core.Path.{subst}
use bambu_gateway.Prelude.{
  ℕ, suc, ◌+◌, ◌≡◌, refl, sym, ap, ◌∙◌, Bool, true, false, Option, none, some, List, [], ◌∷◌, inl,
  inr, arith, if◌then◌else◌, nat_beq, ◌==◌, nat_eq, Bool-cases,
}
use bambu_gateway.Prelude.Dict
use bambu_gateway.Prelude.Dict.{Dict, lookup-insert}
use bambu_gateway.Tracking.Broker.{Snapshot}
use bambu_gateway.Tracking.Feed.{
  Call, acquired, released, Phase, calling, entered, releasing, lost, registered, leaving, gone,
  enqueued, enqueue_all, after_cancel, total,
}

-- How often a connection has been leased, and how often released.
unfoldable pub times_acquired : ℕ → List Call → ℕ
times_acquired c [] = 0
times_acquired c (acquired d ∷ rest) = let n = times_acquired c rest in if d == c then suc n else n
times_acquired c (released d ∷ rest) = times_acquired c rest

unfoldable pub times_released : ℕ → List Call → ℕ
times_released c [] = 0
times_released c (acquired d ∷ rest) = times_released c rest
times_released c (released d ∷ rest) = let n = times_released c rest in if d == c then suc n else n

-- One lease of a connection, counted for `c`.
unfoldable pub share : Option ℕ → ℕ → ℕ
share none c = 0
share (some d) c = if d == c then 1 else 0

-- The leases of `c` that a run of `subscribe` leases_held, for the connection `conn` of the broker.
unfoldable pub leases_held : Option ℕ → ℕ → Phase → ℕ
leases_held conn c (calling o) = 0
leases_held conn c (entered o) = share o c
leases_held conn c (registered q) = share conn c
leases_held conn c leaving = share conn c
leases_held conn c (releasing o) = share o c
leases_held conn c (lost o) = share o c
leases_held conn c gone = 0

pub total-insert_new :
    (f : Phase → ℕ) (id : ℕ) (p : Phase) (d : Dict ℕ Phase)
    → Dict.lookup id d ≡ none
    → total f (Dict.insert id p d) ≡ total f d + f p
unfolding total Dict.lookup Dict.insert
total-insert_new f id p [] h = omega arith
total-insert_new f id p ((j, q) ∷ d) h = ground (arith, total-insert_new f id p d)

pub total-insert :
    (f : Phase → ℕ) (id : ℕ) (p old : Phase) (d : Dict ℕ Phase)
    → Dict.lookup id d ≡ some old
    → total f (Dict.insert id p d) + f old ≡ total f d + f p
unfolding total Dict.lookup Dict.insert
total-insert f id p old [] h = absurd cc
total-insert f id p old ((j, q) ∷ d) h = by_key (nat_beq j id) h (total-insert f id p old d)
  where
    by_key :
        (b : Bool)
        → (if b then some q else Dict.lookup id d) ≡ some old
        → (Dict.lookup id d ≡ some old → total f (Dict.insert id p d) + f old ≡ total f d + f p)
        → total f (if b then (j, p) ∷ d else (j, q) ∷ Dict.insert id p d) + f old
          ≡ f q + total f d + f p
    by_key true k rest = let same : q ≡ old = cc in omega (arith, ap f same)
    by_key false k rest = omega (arith, rest k)

pub total-enqueue_all :
    (f : Phase → ℕ) (maxsize : ℕ) (s : Snapshot) (d : Dict ℕ Phase)
    → ((p : Phase) → f (enqueued maxsize s p) ≡ f p)
    → total f (enqueue_all maxsize s d) ≡ total f d
unfolding total enqueue_all
total-enqueue_all f maxsize s [] same = refl
total-enqueue_all f maxsize s ((j, q) ∷ d) same =
    omega (arith, same q, total-enqueue_all f maxsize s d same)

pub leases_held-enqueued :
    (conn : Option ℕ) (c maxsize : ℕ) (s : Snapshot) (p : Phase)
    → leases_held conn c (enqueued maxsize s p) ≡ leases_held conn c p
unfolding leases_held
leases_held-enqueued conn c maxsize s (calling o) = refl
leases_held-enqueued conn c maxsize s (entered o) = refl
leases_held-enqueued conn c maxsize s (registered q) = refl
leases_held-enqueued conn c maxsize s leaving = refl
leases_held-enqueued conn c maxsize s (releasing o) = refl
leases_held-enqueued conn c maxsize s (lost o) = refl
leases_held-enqueued conn c maxsize s gone = refl

-- The connections that a run of `subscribe` has read are the broker's.
abbrev pub Uses : Option ℕ → Phase → Type 0
Uses conn (calling o) = o ≡ conn
Uses conn (entered o) = o ≡ conn
Uses conn (releasing o) = o ≡ conn
Uses conn (lost o) = o ≡ conn
Uses conn (registered q) = Unit
Uses conn leaving = Unit
Uses conn gone = Unit

abbrev pub AllUse : Option ℕ → Dict ℕ Phase → Type 0
AllUse conn d = (id : ℕ) (p : Phase) → Dict.lookup id d ≡ some p → Uses conn p

pub insert-AllUse :
    (conn : Option ℕ) (id : ℕ) (p : Phase) (d : Dict ℕ Phase)
    → Uses conn p
    → AllUse conn d
    → AllUse conn (Dict.insert id p d)
insert-AllUse conn id p d h all j q e = elim (Bool-cases (id == j)) [
  | inl same ↦
      let found : some p ≡ some q = sym (lookup-insert id j p d ∙ rw same refl) ∙ e in
      subst (Uses conn) (cc found) h
  | inr other ↦ all j q (sym (lookup-insert id j p d ∙ rw other refl) ∙ e)
]

pub enqueued-Uses :
    (conn : Option ℕ) (maxsize : ℕ) (s : Snapshot) (p : Phase)
    → Uses conn p
    → Uses conn (enqueued maxsize s p)
enqueued-Uses conn maxsize s (calling o) h = h
enqueued-Uses conn maxsize s (entered o) h = h
enqueued-Uses conn maxsize s (registered q) h = tt
enqueued-Uses conn maxsize s leaving h = tt
enqueued-Uses conn maxsize s (releasing o) h = h
enqueued-Uses conn maxsize s (lost o) h = h
enqueued-Uses conn maxsize s gone h = tt

pub after_cancel-Uses : (conn : Option ℕ) (p : Phase) → Uses conn p → Uses conn (after_cancel p)
unfolding after_cancel
after_cancel-Uses conn (calling o) h = tt
after_cancel-Uses conn (entered o) h = h
after_cancel-Uses conn (registered q) h = tt
after_cancel-Uses conn leaving h = tt
after_cancel-Uses conn (releasing o) h = h
after_cancel-Uses conn (lost o) h = h
after_cancel-Uses conn gone h = tt

pub leases_held-after_cancel :
    (conn : Option ℕ) (c : ℕ) (p : Phase)
    → leases_held conn c (after_cancel p) ≡ leases_held conn c p
unfolding after_cancel leases_held
leases_held-after_cancel conn c (calling o) = refl
leases_held-after_cancel conn c (entered o) = refl
leases_held-after_cancel conn c (registered q) = refl
leases_held-after_cancel conn c leaving = refl
leases_held-after_cancel conn c (releasing o) = refl
leases_held-after_cancel conn c (lost o) = refl
leases_held-after_cancel conn c gone = refl

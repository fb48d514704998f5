-- ===== src/Camera/Queue/History.antt =====
-- What a slow subscriber still gets.
use bambu_gateway.Prelude.{
  ℕ, ◌-◌, ◌≤◌, ◌<◌, ◌≡◌, sym, ap, ◌∙◌, some, List, [], ◌∷◌, ◌++◌, append-nil, append_assoc, arith,
  leb, length, length-append, nat_eq, Bool-cases, inl, inr, leb→le, leb→lt,
}
use bambu_gateway.Prelude.Dict
use bambu_gateway.Prelude.Dict.{Dict, lookup-insert}
use bambu_gateway.Prelude.Latest.{take_last, take_last-take_last, take_last_short}
use bambu_gateway.Camera.Queue.{Fanout, put_latest, put_all, publish}

module _ {ℓ} {F : Type ℓ} where
  put_latest-take_last :
      (n : ℕ) (f : F) (q : List F)
      → 0 < n
      → length q ≤ n
      → put_latest n f q ≡ take_last n (q ++ f ∷ [])
  unfolding put_latest
  put_latest-take_last n f [] pos fits = ground (arith, take_last_short n (f ∷ []))
  put_latest-take_last n f (x ∷ q) pos fits = elim (Bool-cases (leb n (length (x ∷ q)))) [
    | inl e ↦
        let one : length (x ∷ q ++ f ∷ []) - n ≡ 1 =
          omega (arith, length-append q (f ∷ []), leb→le _ _ e) in
        rw (e, one)
    | inr e ↦
        rw e (sym (take_last_short n _ (omega (arith, length-append q (f ∷ []), leb→lt _ _ e))))
  ]

  put_latest-le :
      (n : ℕ) (f : F) (q : List F) → 0 < n → length q ≤ n → length (put_latest n f q) ≤ n
  unfolding put_latest
  put_latest-le n f [] pos fits = ground arith
  put_latest-le n f (x ∷ q) pos fits = ground (arith, length-append q (f ∷ []))

  lookup-put_all :
      (id n : ℕ) (f : F) (m : Dict ℕ (List F)) (q : List F)
      → Dict.lookup id m ≡ some q
      → Dict.lookup id (put_all n f m) ≡ some (put_latest n f q)
  unfolding Dict.lookup put_all
  lookup-put_all id n f [] q h = cc
  lookup-put_all id n f ((j, r) ∷ m) q h = ground (arith, lookup-put_all id n f m q)

  -- Frames that come while the subscriber takes none.
  pub publish_all : List (F × ℕ) → Fanout F → Fanout F
  publish_all [] p = p
  publish_all ((f, now) ∷ fs) p = publish_all fs (publish f now p)

  abbrev pub frames : List (F × ℕ) → List F
  frames [] = []
  frames ((f, now) ∷ fs) = f ∷ frames fs

  -- Whatever is published, and whatever the other subscribers hold, a subscriber that takes nothing
  -- holds the newest `queue_maxsize` of what it held and what came, in order, and no more.
  pub lookup-publish_all :
      (fs : List (F × ℕ)) (p : Fanout F) (id : ℕ) (q : List F)
      → 0 < p.queue_maxsize
      → Dict.lookup id p.subscribers ≡ some q
      → length q ≤ p.queue_maxsize
      → Dict.lookup id (publish_all fs p).subscribers
        ≡ some (take_last p.queue_maxsize (q ++ frames fs))
  unfolding publish_all publish
  lookup-publish_all [] p id q pos h fits =
      rw append-nil (h ∙ ap some (sym (take_last_short _ q fits)))
  lookup-publish_all ((f, now) ∷ fs) p id q pos h fits =
      let n = p.queue_maxsize in
      lookup-publish_all fs (publish f now p) id (put_latest n f q) pos
        (lookup-put_all id n f p.subscribers q h) (put_latest-le n f q pos fits)
      ∙ ap (λ r. some (take_last n (r ++ frames fs))) (put_latest-take_last n f q pos fits)
      ∙ ap some (take_last-take_last n (q ++ f ∷ []) (frames fs))
      ∙ ap (λ r. some (take_last n r)) (append_assoc q (f ∷ []) (frames fs))

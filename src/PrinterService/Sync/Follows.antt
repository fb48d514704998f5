-- ===== src/PrinterService/Sync/Follows.antt =====
-- The printers that are served after a reload.
use mathlib.Core.Path.{subst}
use bambu_gateway.Prelude.{
  ◌≡◌, ◌⊎◌, inl, inr, refl, sym, ap, ◌∙◌, String, Bool, true, false, not, ◌&&◌, Option, none, some,
  List, [], ◌∷◌, arith, ◌==◌, string_eq, is_in, Bool-cases, Option-cases,
}
use bambu_gateway.Prelude.Dict
use bambu_gateway.Prelude.Dict.{Dict, lookup-insert, lookup-remove}
use bambu_gateway.ConfigStore.{PrinterConfig}
use bambu_gateway.PrinterService.Sync.{
  Made, Service, by_serial, sync_one, keys_of, sync_serials, select, is_known, sync_printers,
}
use bambu_gateway.PrinterService.Sync.Steps.{
  Serves, IsWaiting, IsDone, other-IsWaiting, other-IsDone, here-IsDone, absent-IsDone,
}

-- The serials of the three lists.
is_in-select :
    (p : String → Bool) (k : String) (xs : List String)
    → is_in k (select p xs) ≡ (p k && is_in k xs)
is_in-select p k [] = ground arith
is_in-select p k (x ∷ xs) =
    let rest = is_in-select p k xs in
    elim (Bool-cases (k == x)) [
      | inl e ↦
          let (same, _) = string_eq.eqb_iff k x in
          let pk = ap p (same e) in ground (arith, rest, e, pk)
      | inr e ↦ ground (arith, rest, e)
    ]

is_in-keys_of : (d : Dict String PrinterConfig) (k : String) → is_in k (keys_of d) ≡ is_known d k
unfolding Dict.lookup
is_in-keys_of [] k = refl
is_in-keys_of ((j, c) ∷ d) k =
    let rest = is_in-keys_of d k in
    elim (Bool-cases (j == k)) [
      | inl e ↦ ground (arith, rest, e, string_eq.eqb_iff j k, string_eq.eqb_iff k j)
      | inr e ↦ ground (arith, rest, e, string_eq.eqb_iff j k, string_eq.eqb_iff k j)
    ]

known_serial :
    (d : Dict String PrinterConfig) (k : String) (c : PrinterConfig)
    → Dict.lookup k d ≡ some c
    → is_known d k ≡ true
known_serial d k c e = rw (is_known, e) refl

absent_serial :
    (d : Dict String PrinterConfig) (k : String) → Dict.lookup k d ≡ none → is_known d k ≡ false
absent_serial d k e = rw (is_known, e) refl

selected :
    (p : String → Bool) (k : String) (d : Dict String PrinterConfig)
    → p k ≡ true
    → is_known d k ≡ true
    → is_in k (select p (keys_of d)) ≡ true
selected p k d e e' = is_in-select p k (keys_of d) ∙ rw (is_in-keys_of d k, e, e') refl

-- A list of serials: what is done stays done, and a serial of the list is done.
module _ (olds news : Dict String PrinterConfig) (before : Option Made) (k : String)
    (valid : Dict.lookup k olds ≡ none → before ≡ none) where
  Done : Service → Type 0
  Done s = IsDone (Dict.lookup k olds) (Dict.lookup k news) before k s

  Waiting : Service → Type 0
  Waiting s = IsWaiting (Dict.lookup k olds) before k s

  step : String → Service → Service
  step j s = sync_one j (Dict.lookup j olds) (Dict.lookup j news) s

  step_here : (j : String) (s : Service) → (j == k) ≡ true → Waiting s ⊎ Done s → Done (step j s)
  unfolding Done Waiting step
  step_here j s e h =
      let (same, _) = string_eq.eqb_iff j k in
      subst (λ (i : String). Done (step i s)) (sym (same e))
        (here-IsDone k (Dict.lookup k olds) (Dict.lookup k news) s valid h)

  step-Done : (j : String) (s : Service) → Done s → Done (step j s)
  unfolding Done step
  step-Done j s h = elim (Bool-cases (j == k)) [
    | inl e ↦ step_here j s e (inr h)
    | inr e ↦ other-IsDone j k (Dict.lookup j olds) (Dict.lookup j news) s e h
  ]

  sync_serials-Done : (js : List String) (s : Service) → Done s → Done (sync_serials olds news js s)
  unfolding sync_serials step
  sync_serials-Done [] s h = h
  sync_serials-Done (j ∷ js) s h = sync_serials-Done js (step j s) (step-Done j s h)

  sync_serials-keeps :
      (js : List String) (s : Service)
      → Waiting s ⊎ Done s
      → Waiting (sync_serials olds news js s) ⊎ Done (sync_serials olds news js s)
  unfolding sync_serials step Waiting
  sync_serials-keeps [] s h = h
  sync_serials-keeps (j ∷ js) s (inr h) = inr (sync_serials-Done (j ∷ js) s h)
  sync_serials-keeps (j ∷ js) s (inl h) =
      sync_serials-keeps js (step j s) (elim (Bool-cases (j == k)) [
        | inl e ↦ inr (step_here j s e (inl h))
        | inr e ↦ inl (other-IsWaiting j k (Dict.lookup j olds) (Dict.lookup j news) s e h)
      ])

  sync_serials-member :
      (js : List String) (s : Service)
      → Waiting s ⊎ Done s
      → is_in k js ≡ true
      → Done (sync_serials olds news js s)
  unfolding sync_serials step Waiting
  sync_serials-member [] s h m = cc
  sync_serials-member (j ∷ js) s h m = elim (Bool-cases (j == k)) [
    | inl e ↦ sync_serials-Done js (step j s) (step_here j s e h)
    | inr e ↦
        sync_serials-member js (step j s)
          (elim h [
            | inl w ↦ inl (other-IsWaiting j k (Dict.lookup j olds) (Dict.lookup j news) s e w)
            | inr d ↦ inr (step-Done j s d)
          ])
          (ground (arith, m, e, string_eq.eqb_iff j k, string_eq.eqb_iff k j))
  ]

  reloaded :
      (s : Service)
      → Waiting s
      → Done (
          sync_serials olds news (select (λ i. not (is_known olds i)) (keys_of news)) (
            sync_serials olds news
              (select (is_known news) (keys_of olds))
              (sync_serials olds news (select (λ i. not (is_known news i)) (keys_of olds)) s)))
  unfolding Done Waiting
  reloaded s h = elim (Option-cases (Dict.lookup k olds)) [
    | inl e ↦ elim (Option-cases (Dict.lookup k news)) [
      | inl e' ↦ by_state e e' kept_both
      | inr (c, e') ↦ sync_serials-member added s_both kept_both (
          selected (λ i. not (is_known olds i)) k news (ap not (absent_serial olds k e))
            (known_serial news k c e'))
    ]
    | inr (c, e) ↦ elim (Option-cases (Dict.lookup k news)) [
      | inl e' ↦ sync_serials-Done added s_both (
          sync_serials-Done staying s_removed (
            sync_serials-member removed s (inl h) (
              selected (λ i. not (is_known news i)) k olds (ap not (absent_serial news k e'))
                (known_serial olds k c e))))
      | inr (c', e') ↦ sync_serials-Done added s_both (
          sync_serials-member staying s_removed kept
            (selected (is_known news) k olds (known_serial news k c' e') (known_serial olds k c e)))
    ]
  ]
    where
      removed : List String
      removed = select (λ i. not (is_known news i)) (keys_of olds)

      staying : List String
      staying = select (is_known news) (keys_of olds)

      added : List String
      added = select (λ i. not (is_known olds i)) (keys_of news)

      s_removed : Service
      s_removed = sync_serials olds news removed s

      s_both : Service
      s_both = sync_serials olds news staying s_removed

      s_all : Service
      s_all = sync_serials olds news added s_both

      kept : Waiting s_removed ⊎ Done s_removed
      kept = sync_serials-keeps removed s (inl h)

      kept_both : Waiting s_both ⊎ Done s_both
      kept_both = sync_serials-keeps staying s_removed kept

      by_state :
          Dict.lookup k olds ≡ none
          → Dict.lookup k news ≡ none
          → Waiting s_both ⊎ Done s_both
          → Done s_all
      by_state e e' w = elim (sync_serials-keeps added s_both w) [
        | inl x ↦
            absent-IsDone (Dict.lookup k olds) (Dict.lookup k news) before k s_all valid e e' x
        | inr x ↦ x
      ]

-- After a reload a serial has its new configuration, or none when the list has none for it, and its
-- client is the one of before under its new name when the address and the code are the same, and
-- else one made of the new configuration: given that it had no client without a configuration.
pub sync_printers-Serves :
    (new_configs : List PrinterConfig) (s : Service) (k : String)
    → (Dict.lookup k s.configs ≡ none → Dict.lookup k s.clients ≡ none)
    → (Dict.lookup k (sync_printers new_configs s).configs
        ≡ Dict.lookup k (by_serial new_configs []))
      × Serves
          (Dict.lookup k s.configs)
          (Dict.lookup k (by_serial new_configs []))
          (Dict.lookup k s.clients)
          (Dict.lookup k (sync_printers new_configs s).clients)
unfolding sync_printers Waiting Done
sync_printers-Serves new_configs s k valid =
    let done =
      reloaded s.configs (by_serial new_configs []) (Dict.lookup k s.clients) k valid s
        (record { same_config = refl; same_client = refl }) in
    (done.new_config, done.served)

-- ===== src/Tracking/Reports/Merged.antt =====
-- A merge, key by key.
use bambu_gateway.Prelude.{
  ◌≡◌, refl, sym, ap, ◌∙◌, String, Bool, true, false, Option, none, some, arith, if◌then◌else◌,
  ◌==◌, string_eq,
}
use bambu_gateway.Prelude.Json.{
  Json, null, bool, num, decimal, str, arr, obj, Fields, end, field, member,
}
use bambu_gateway.Prelude.Dict
use bambu_gateway.Tracking.Reports.{put, merge}

-- No key stands twice, as in every dict.
unfoldable pub has_distinct_keys : Fields → Bool
has_distinct_keys end = true
has_distinct_keys (field key value rest) =
    let more = has_distinct_keys rest in elim (member key rest) [ none ↦ more | some _ ↦ false ]

-- What a key has after a new value: a dict is merged into a dict.
unfoldable pub overlaid : Json → Option Json → Json
overlaid (obj new) (some (obj old)) = obj (merge old new)
overlaid value _ = value

-- What a key has after a report: the old value where the report has none.
unfoldable pub merged_at : Option Json → Option Json → Option Json
merged_at old none = old
merged_at old (some value) = some (overlaid value old)

member-put :
    (j k : String) (v : Json) (fs : Fields)
    → member j (put k v fs) ≡ (if k == j then some v else member j fs)
unfolding member put Dict.lookup
member-put j k v end = refl
member-put j k v (field i w fs) = ground (
  arith,
  string_eq.eqb_iff k j,
  string_eq.eqb_iff i k,
  string_eq.eqb_iff i j,
  member-put j k v fs,
)

inner_overlaid :
    (o : Option Json) (update : Fields)
    → obj (elim o [ some (obj inner) ↦ merge inner update | _ ↦ update ]) ≡ overlaid (obj update) o
unfolding overlaid
inner_overlaid none u = refl
inner_overlaid (some (obj _)) u = refl
inner_overlaid (some null) u = refl
inner_overlaid (some (bool _)) u = refl
inner_overlaid (some (num _)) u = refl
inner_overlaid (some (decimal _ _)) u = refl
inner_overlaid (some (str _)) u = refl
inner_overlaid (some (arr _)) u = refl

merge_one :
    (key : String) (value : Json) (rest target : Fields)
    → merge target (field key value rest)
      ≡ merge (put key (overlaid value (member key target)) target) rest
unfolding merge overlaid
merge_one key (obj update) rest target =
    ap (λ v. merge (put key v target) rest) (inner_overlaid (member key target) update)
merge_one key null rest target = refl
merge_one key (bool _) rest target = refl
merge_one key (num _) rest target = refl
merge_one key (decimal _ _) rest target = refl
merge_one key (str _) rest target = refl
merge_one key (arr _) rest target = refl

none_and :
    (o : Option Json) (m : Bool)
    → elim o [ none ↦ m | some _ ↦ false ] ≡ true
    → (o ≡ none) × (m ≡ true)
none_and none m h = (refl, h)
none_and (some j) m h = absurd cc

rest_distinct :
    (key : String) (value : Json) (rest : Fields)
    → has_distinct_keys (field key value rest) ≡ true
    → (member key rest ≡ none) × (has_distinct_keys rest ≡ true)
unfolding has_distinct_keys
rest_distinct key value rest h = none_and (member key rest) (has_distinct_keys rest) h

member-end : (j : String) → member j end ≡ none
unfolding member Dict.lookup
member-end j = refl

member-field :
    (j k : String) (v : Json) (fs : Fields)
    → member j (field k v fs) ≡ (if k == j then some v else member j fs)
unfolding member Dict.lookup
member-field j k v fs = refl

first_key :
    (j k : String) (v : Json) (target rest : Fields) (b : Bool)
    → (k == j) ≡ b
    → member k rest ≡ none
    → merged_at (if b then some (overlaid v (member k target)) else member j target) (member j rest)
      ≡ merged_at (member j target) (if b then some v else member j rest)
unfolding merged_at
first_key j k v target rest true e new =
    let (same, _) = string_eq.eqb_iff k j in let same_key = same e in rw (sym same_key, new) refl
first_key j k v target rest false e new = refl

-- A partial report changes a key of the accumulated state exactly where it has that key, and a dict
-- is merged into the dict that is there in the same way, at every depth.
pub member-merge :
    (key : String) (target update : Fields)
    → has_distinct_keys update ≡ true
    → member key (merge target update) ≡ merged_at (member key target) (member key update)
unfolding merge merged_at
member-merge key target end h = rw (member-end key) refl
member-merge key target (field k v rest) h =
    let (new, more) = rest_distinct k v rest h in
    let e = member-merge key (put k (overlaid v (member k target)) target) rest more in
    let f = member-put key k (overlaid v (member k target)) target in
    ap (member key) (merge_one k v rest target)
    ∙ e
    ∙ rw (f, member-field key k v rest) (first_key key k v target rest (k == key) refl new)

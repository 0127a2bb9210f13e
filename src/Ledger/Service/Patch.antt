-- ===== src/Ledger/Service/Patch.antt =====
-- `mergePatch` of internal/modules/ledger/ledgers.go, and what RFC 7396 says of its answer.
use astrum.Prelude.{
  ◌≡◌, refl, ◌∙◌, subst, false, Option, none, some, if◌then◌else◌, Bool-cases, inl, inr,
}
use astrum.Prelude.Eq.{Text, text_eq, text_beq, text_beq_iff, ◌=?◌, =?_refl}
use astrum.Ledger.Json.{
  Json, null, boolean, string, number, array, object, Members, no_member, member, get, put,
}

-- `delete(target, k)`
unfoldable pub remove : Text → Members → Members
remove k no_member = no_member
remove k (member j v m) = let rest = remove k m in if j =? k then rest else member j v rest

-- `existing, _ := target[k].(map[string]any)`: a nil map is read as an empty one
abbrev pub existing : Option Json → Members
existing (some (object m)) = m
existing _ = no_member

unfoldable mutual
  unfolding get put remove

  pub merge_patch : Members → Members → Members
  merge_patch target no_member = target
  merge_patch target (member k v ms) = merge_patch (merge_member target k v) ms

  -- one round of the loop
  pub merge_member : Members → Text → Json → Members
  merge_member target k null = remove k target
  merge_member target k (object v) = put k (object (merge_patch (existing (get k target)) v)) target
  merge_member target k (boolean b) = put k (boolean b) target
  merge_member target k (string s) = put k (string s) target
  merge_member target k (number n) = put k (number n) target
  merge_member target k (array es) = put k (array es) target

-- What a member of the target becomes, by the patch's member of that name: RFC 7396, section 2.
abbrev pub patched : Option Json → Option Json → Option Json
patched old none = old
patched old (some null) = none
patched old (some (object v)) = some (object (merge_patch (existing old) v))
patched old (some v) = some v

-- No two members have one name, as in a map of Go.
abbrev pub Distinct : Members → Type 0
Distinct no_member = Unit
Distinct (member k v m) = (get k m ≡ none) × Distinct m

get-remove : (k : Text) (m : Members) → get k (remove k m) ≡ none
unfolding get remove
get-remove k no_member = refl
get-remove k (member j v m) = elim (Bool-cases (j =? k)) [
  | inl e ↦ rw e (get-remove k m)
  | inr e ↦ rw (e, e) (get-remove k m)
]

module _ (j k : Text) (differ : text_beq k j ≡ false) where
  get-remove_other : (m : Members) → get j (remove k m) ≡ get j m
  unfolding get remove
  get-remove_other no_member = refl
  get-remove_other (member i v m) = elim (Bool-cases (text_beq i k)) [
    | inl e ↦ rw (e, (text_beq_iff i k).0 e, differ) (get-remove_other m)
    | inr e ↦ elim (Bool-cases (text_beq i j)) [
      | inl f ↦ rw (e, f) refl
      | inr f ↦ rw (e, f) (get-remove_other m)
    ]
  ]

  get-put_other : (v : Json) (m : Members) → get j (put k v m) ≡ get j m
  unfolding get put
  get-put_other v no_member = rw differ refl
  get-put_other v (member i w m) = elim (Bool-cases (text_beq i k)) [
    | inl e ↦ rw (e, (text_beq_iff i k).0 e, differ) refl
    | inr e ↦ elim (Bool-cases (text_beq i j)) [
      | inl f ↦ rw (e, f) refl
      | inr f ↦ rw (e, f) (get-put_other v m)
    ]
  ]

get-put : (k : Text) (v : Json) (m : Members) → get k (put k v m) ≡ some v
unfolding get put
get-put k v no_member = rw (=?_refl k) refl
get-put k v (member i w m) = elim (Bool-cases (text_beq i k)) [
  | inl e ↦ rw (e, =?_refl k) refl
  | inr e ↦ rw (e, e) (get-put k v m)
]

merge_member-same :
    (target : Members) (k : Text) (v : Json)
    → get k (merge_member target k v) ≡ patched (get k target) (some v)
unfolding merge_member
merge_member-same target k null = get-remove k target
merge_member-same target k (object v) = get-put k _ target
merge_member-same target k (boolean b) = get-put k _ target
merge_member-same target k (string s) = get-put k _ target
merge_member-same target k (number n) = get-put k _ target
merge_member-same target k (array es) = get-put k _ target

merge_member-other :
    (target : Members) (j k : Text) (v : Json)
    → text_beq k j ≡ false
    → get j (merge_member target k v) ≡ get j target
unfolding merge_member
merge_member-other target j k null d = get-remove_other j k d target
merge_member-other target j k (object v) d = get-put_other j k d _ target
merge_member-other target j k (boolean b) d = get-put_other j k d _ target
merge_member-other target j k (string s) d = get-put_other j k d _ target
merge_member-other target j k (number n) d = get-put_other j k d _ target
merge_member-other target j k (array es) d = get-put_other j k d _ target

-- In a patch whose members have distinct names, as a map of Go has them, each name's member decides
-- alone what the name means afterwards: absent, it leaves the target's member; null, it removes it;
-- an object is merged into the target's object, or into an empty one; any other value replaces it.
pub merge_patch-patched :
    (target patch : Members) (j : Text)
    → Distinct patch
    → get j (merge_patch target patch) ≡ patched (get j target) (get j patch)
unfolding merge_patch get
merge_patch-patched target no_member j d = refl
merge_patch-patched target (member k v ms) j d = elim (Bool-cases (text_beq k j)) [
  | inl e ↦
      let same : k ≡ j = (text_beq_iff k j).0 e in
      rw e (
        subst
          (λ x. get x (merge_patch (merge_member target k v) ms) ≡ patched (get x target) (some v))
          same
          (merge_patch-patched (merge_member target k v) ms k d.1
            ∙ (rw d.0 (merge_member-same target k v))))
  | inr e ↦
      rw (e, ← merge_member-other target j k v e)
        (merge_patch-patched (merge_member target k v) ms j d.1)
]

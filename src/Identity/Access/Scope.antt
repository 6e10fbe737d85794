-- ===== src/Identity/Access/Scope.antt =====
-- Whose permissions an identity has.
use team_nivaran.Common.{
  String, ◌≡◌, ◌↔◌, refl, subst, ◌⊎◌, inl, inr, List, [], ◌∷◌, Memᴰ, arith, ◌==◌, eq_iff,
  Bool-cases,
}
use team_nivaran.Common.Lists.{
  flat, Memᴰ-cons, Memᴰ-append_to, Memᴰ-append_left, Memᴰ-append_right, Memᴰ-select,
}
use team_nivaran.Common.Results.{ok}
use team_nivaran.Identity.Access.{
  Assignment, User, EffectiveIdentity, text_lt, insert_text, sorted_set, in_organization, granted,
  to_effective_identity,
}

insert_text_to : (s p : String) (xs : List String) → Memᴰ p (insert_text s xs) → (p ≡ s) ⊎ Memᴰ p xs
unfolding insert_text
insert_text_to s p [] m = elim (Memᴰ-cons m) [ inl e ↦ inl e | inr k ↦ inr k ]
insert_text_to s p (x ∷ xs) m = elim (Bool-cases (s == x)) [
  | inl same ↦ inr (rw same at m)
  | inr other ↦ elim (Bool-cases (text_lt s x)) [
    | inl below ↦ Memᴰ-cons (rw (other, below) at m)
    | inr above ↦ elim (Memᴰ-cons (rw (other, above) at m)) [
      | inl e ↦ inr (Memᴰ.head e)
      | inr k ↦ elim (insert_text_to s p xs k) [ inl e ↦ inl e | inr l ↦ inr (Memᴰ.tail l) ]
    ]
  ]
]

insert_text_new : (s : String) (xs : List String) → Memᴰ s (insert_text s xs)
unfolding insert_text
insert_text_new s [] = Memᴰ.head refl
insert_text_new s (x ∷ xs) = elim (Bool-cases (s == x)) [
  | inl same ↦ rw same (Memᴰ.head ((eq_iff s x).0 same))
  | inr other ↦ elim (Bool-cases (text_lt s x)) [
    | inl below ↦ rw (other, below) (Memᴰ.head refl)
    | inr above ↦ rw (other, above) (Memᴰ.tail (insert_text_new s xs))
  ]
]

insert_text_old : (s p : String) (xs : List String) → Memᴰ p xs → Memᴰ p (insert_text s xs)
unfolding insert_text
insert_text_old s p [] m = elim m [ ]
insert_text_old s p (x ∷ xs) m = elim (Bool-cases (s == x)) [
  | inl same ↦ rw same m
  | inr other ↦ elim (Bool-cases (text_lt s x)) [
    | inl below ↦ rw (other, below) (Memᴰ.tail m)
    | inr above ↦ elim (Memᴰ-cons m) [
      | inl e ↦ rw (other, above) (Memᴰ.head e)
      | inr k ↦ rw (other, above) (Memᴰ.tail (insert_text_old s p xs k))
    ]
  ]
]

-- Sorting and removing repetitions keeps the members.
Memᴰ-sorted_set : (p : String) (xs : List String) → Memᴰ p (sorted_set xs) ↔ Memᴰ p xs
unfolding sorted_set
Memᴰ-sorted_set p [] = (λ m. m, λ m. m)
Memᴰ-sorted_set p (x ∷ xs) =
    let (to, from) = Memᴰ-sorted_set p xs in
    (
      λ m. elim (insert_text_to x p (sorted_set xs) m) [
        | inl e ↦ Memᴰ.head e
        | inr k ↦ Memᴰ.tail (to k)
      ],
      λ m. elim (Memᴰ-cons m) [
        | inl e ↦ rw e (insert_text_new x (sorted_set xs))
        | inr k ↦ insert_text_old x p (sorted_set xs) (from k)
      ],
    )

Memᴰ-flat :
    (p : String) (xs : List Assignment)
    → Memᴰ p (flat (λ (a : Assignment). a.role.permissions) xs)
      ↔ ((a : Assignment) × Memᴰ a xs × Memᴰ p a.role.permissions)
Memᴰ-flat p [] = (λ m. elim m [ ], λ (a, m, k). elim m [ ])
Memᴰ-flat p (a ∷ xs) =
    let (to, from) = Memᴰ-flat p xs in
    (
      λ m. elim (Memᴰ-append_to a.role.permissions _ m) [
        | inl k ↦ (a, Memᴰ.head refl, k)
        | inr k ↦ let (b, listed, l) = to k in (b, Memᴰ.tail listed, l)
      ],
      λ (b, listed, k). elim (Memᴰ-cons listed) [
        | inl e ↦
            Memᴰ-append_left a.role.permissions _
              (subst (λ (c : Assignment). Memᴰ p c.role.permissions) e k)
        | inr l ↦ Memᴰ-append_right a.role.permissions _ (from (b, l, k))
      ],
    )

identity_permissions :
    (user : User) (identity : EffectiveIdentity)
    → to_effective_identity user ≡ ok identity
    → identity.permissions ≡ sorted_set (granted identity.organization_id user.user_roles)
unfolding to_effective_identity
identity_permissions user identity h = ground arith

-- An identity has a permission exactly when a role that is assigned to the user in the identity's
-- own organization grants it: assignments of other organizations give nothing.
pub permission_iff :
    (user : User) (identity : EffectiveIdentity) (p : String)
    → to_effective_identity user ≡ ok identity
    → Memᴰ p identity.permissions ↔ (
        (a : Assignment) × Memᴰ a user.user_roles
        × (a.organization_id ≡ identity.organization_id)
        × Memᴰ p a.role.permissions)
permission_iff user identity p h = rw (identity_permissions user identity h) (
  λ m.
      let (a, listed, k) = (Memᴰ-flat p _).0 ((Memᴰ-sorted_set p _).0 m) in
      let (assigned, here) =
        (Memᴰ-select (in_organization identity.organization_id) user.user_roles a).0 listed in
      (a, assigned, (eq_iff _ _).0 here, k),
  λ (a, assigned, here, k). (Memᴰ-sorted_set p _).1 (
      (Memᴰ-flat p _).1 (
        a,
        (Memᴰ-select (in_organization identity.organization_id) user.user_roles a).1
            (assigned, (eq_iff _ _).1 here),
        k,
      )),
)

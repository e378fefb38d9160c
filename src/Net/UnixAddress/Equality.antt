-- ===== src/Net/UnixAddress/Equality.antt =====
-- `operator==` of addresses with paths.
use libcosmos.Prelude.{
  suc, ◌≤◌, ◌≡◌, ◌↔◌, ap, sym, subst, ◌∙◌, refl, arith, Bool, true, false, [], ◌∷◌, ◌++◌, length,
  take, drop, take_front, bytes_eq→eq, bytes_eq_refl,
}
use libcosmos.Outcome.{Bytes}
use libcosmos.Net.UnixAddress.{
  Address, max_path_len, overwrite, placed, of_path, empty_address, equal,
}
use libcosmos.Net.UnixAddress.Paths.{overwrite-end, stored, set_path-stored}

-- The bytes that are compared.
abbrev pub compared : Bytes → Bool → Bytes
compared path true = 0 ∷ path
compared path false = path ++ 0 ∷ []

take_past : (path rest : Bytes) → take (suc (length path)) (path ++ 0 ∷ rest) ≡ path ++ 0 ∷ []
take_past [] rest = refl
take_past (c ∷ path) rest = ap (λ s. c ∷ s) (take_past path rest)

pub take-placed :
    (path : Bytes) (b : Bool) (mem : Bytes)
    → take (suc (length path)) (placed path b mem) ≡ compared path b
unfolding placed overwrite
take-placed path true mem = ap (λ s. 0 ∷ s) (take_front path _)
take-placed path false mem = rw (overwrite-end path (drop (length path) mem)) (take_past path _)

compared_same : (p q : Bytes) (b : Bool) → length p ≡ length q → compared p b ≡ compared q b → p ≡ q
compared_same p q true l h = ap (drop 1) h
compared_same p q false l h =
    sym (take_front p (0 ∷ []))
    ∙ ap (take (length p)) h
    ∙ ap (λ k. take k (q ++ 0 ∷ [])) l
    ∙ take_front q (0 ∷ [])

equal_parts :
    (x y : Address)
    → equal x y ≡ true
    → (x.path_len ≡ y.path_len)
      × (take (suc x.path_len) x.sun_path ≡ take (suc x.path_len) y.sun_path)
unfolding equal
equal_parts x y h = (ground (arith, h), bytes_eq→eq _ _ (ground (arith, h)))

same_path :
    (p q : Bytes) (b : Bool) (x y : Address) → equal (stored p b x) (stored q b y) ≡ true → p ≡ q
same_path p q b x y h =
    let parts = equal_parts (stored p b x) (stored q b y) h in
    compared_same p q b parts.0 (
      sym (take-placed p b x.sun_path)
      ∙ parts.1
      ∙ ap (λ k. take (suc k) (placed q b y.sun_path)) parts.0
      ∙ take-placed q b y.sun_path)

same_address :
    (p : Bytes) (b : Bool) (x y : Address)
    → x.sun_family ≡ y.sun_family
    → equal (stored p b x) (stored p b y) ≡ true
unfolding equal
same_address p b x y f =
    rw (take-placed p b x.sun_path, take-placed p b y.sun_path, bytes_eq_refl (compared p b))
      (ground (arith, f))

-- Two addresses made of paths of the same kind are equal exactly if the paths are the same, whatever
-- else their memory holds.
pub equal-of_path :
    (p q : Bytes) (b : Bool) (m n : Bytes)
    → length p ≤ max_path_len
    → length q ≤ max_path_len
    → (equal (of_path p b m).1 (of_path q b n).1 ≡ true) ↔ (p ≡ q)
unfolding of_path empty_address
equal-of_path p q b m n hp hq =
    rw (set_path-stored p b (empty_address m) hp, set_path-stored q b (empty_address n) hq)
      (
        same_path p q b (empty_address m) (empty_address n),
        λ e.
            subst (λ r. equal (stored p b (empty_address m)) (stored r b (empty_address n)) ≡ true)
              e (same_address p b (empty_address m) (empty_address n) refl),
      )

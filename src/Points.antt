-- ===== src/Points.antt =====
-- Points of DNP3, a pair of an object group and an index, as keys; sets of them (Python's `set`) as
-- lists.
use horstmann_dnp3_gateway.Base.{
  nat_eq, text_eq, pair_eq, arith, false, ◌↔◌, not, ◌==◌, ◌&&◌, if◌then◌else◌, keep, true, ◌∷◌,
  contains, List, Bool, ◌≡◌, refl, [], Eq,
}
use horstmann_dnp3_gateway.Base.Number.{ℤ, pos, negsuc}

abbrev pub Point : Type 0
Point = ℤ × ℤ

unfoldable pub int_test : ℤ → ℤ → Bool
int_test (pos m) (pos n) = m == n
int_test (negsuc m) (negsuc n) = m == n
int_test _ _ = false

pub int_test_iff : (x y : ℤ) → (int_test x y ≡ true) ↔ (x ≡ y)
unfolding int_test
int_test_iff (pos m) (pos n) = ground arith
int_test_iff (negsuc m) (negsuc n) = ground arith
int_test_iff (pos m) (negsuc n) = ground arith
int_test_iff (negsuc m) (pos n) = ground arith

unfoldable pub point_test : Point → Point → Bool
unfolding int_test
point_test (a, b) (c, d) = int_test a c && int_test b d

pub point_test_iff : (p q : Point) → (point_test p q ≡ true) ↔ (p ≡ q)
unfolding point_test
point_test_iff (a, b) (c, d) = ground (arith, int_test_iff a c, int_test_iff b d)

instance abbrev pub point_eq : Eq Point
point_eq = record { test = point_test; test_iff = point_test_iff }

-- s.add(p)
unfoldable pub add_point : Point → List Point → List Point
add_point p s = if contains p s then s else p ∷ s

-- s.update(ps)
unfoldable pub add_points : List Point → List Point → List Point
add_points [] s = s
add_points (p ∷ ps) s = add_points ps (add_point p s)

-- s.discard(p)
unfoldable pub discard : Point → List Point → List Point
discard p s = keep (λ q. not (q == p)) s

pub contains-add_point :
    (q p : Point) (s : List Point)
    → contains q (add_point p s) ≡ (if q == p then true else contains q s)
unfolding add_point contains
contains-add_point q p s = ground (arith, point_eq.test_iff q p)

pub contains-add_points :
    (q : Point) (ps s : List Point)
    → contains q (add_points ps s) ≡ (if contains q ps then true else contains q s)
unfolding add_points contains
contains-add_points q [] s = refl
contains-add_points q (p ∷ ps) s =
    ground (arith, contains-add_points q ps (add_point p s), contains-add_point q p s)

pub contains-discard :
    (q p : Point) (s : List Point)
    → contains q (discard p s) ≡ (if q == p then false else contains q s)
unfolding discard contains keep
contains-discard q p [] = ground arith
contains-discard q p (r ∷ s) = ground (
  arith,
  point_eq.test_iff q p,
  point_eq.test_iff r p,
  point_eq.test_iff q r,
  contains-discard q p s,
)

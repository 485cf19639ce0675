-- ===== src/Text/Numbers/Order.antt =====
-- The order of the integers, as `<` tests it.
use tlsentinel_server.Common.{true, false, ◌≡◌, refl, arith}
use tlsentinel_server.Text.Numbers.{ℤ, pos, negsuc, less}

pub less-asymmetric : (a b : ℤ) → less a b ≡ true → less b a ≡ false
less-asymmetric (pos a) (pos b) h = ground arith
less-asymmetric (pos a) (negsuc b) h = ground arith
less-asymmetric (negsuc a) (pos b) h = refl
less-asymmetric (negsuc a) (negsuc b) h = ground arith

pub less-transitive : (a b c : ℤ) → less b a ≡ false → less c b ≡ false → less c a ≡ false
less-transitive (pos a) (pos b) (pos c) h k = ground arith
less-transitive (pos a) (pos b) (negsuc c) h k = ground arith
less-transitive (pos a) (negsuc b) c h k = ground arith
less-transitive (negsuc a) (pos b) (pos c) h k = refl
less-transitive (negsuc a) (pos b) (negsuc c) h k = ground arith
less-transitive (negsuc a) (negsuc b) (pos c) h k = refl
less-transitive (negsuc a) (negsuc b) (negsuc c) h k = ground arith

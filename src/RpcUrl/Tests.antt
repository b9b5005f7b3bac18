-- ===== src/RpcUrl/Tests.antt =====
-- settings.ts: the guard with a stand-in for the platform, in which a URL is its host and a number a
-- decimal numeral.
use pumpy_v.Common.{
  ℕ, ◌+◌, ◌*◌, ◌-◌, ◌≡◌, refl, inl, Bool, true, false, Option, none, some, [], ◌∷◌, ◌==◌, leb,
  arith, codes, ◌&&◌, if◌then◌else◌,
}
use pumpy_v.Text.{Text}
use pumpy_v.RpcUrl.{Platform, is_safe_rpc_url}
use pumpy_v.RpcUrl.Ranges.{is_safe_rpc_url-reserved}

abbrev numeral : ℕ → Text → Option ℕ
numeral n [] = some n
numeral n (c ∷ s) = if leb 48 c && leb c 57 then numeral (n * 10 + (c - 48)) s else none

abbrev holds : (ℕ → Bool) → Option ℕ → Bool
holds f none = false
holds f (some n) = f n

abbrev missing : Option ℕ → Bool
missing none = true
missing (some n) = false

abbrev simple : Platform
simple = record {
  parse_url = λ s. some (record { protocol = codes "http:"; hostname = s });
  Number = Option ℕ;
  to_number = numeral 0;
  is_nan = missing;
  equals = λ n k. holds (λ m. m == k) n;
  at_least = λ n k. holds (λ m. leb k m) n;
  at_most = λ n k. holds (λ m. leb m k) n;
}

localhost_refused : is_safe_rpc_url simple (codes "LocalHost") ≡ false
unfolding is_safe_rpc_url
localhost_refused = refl

private_refused : is_safe_rpc_url simple (codes "172.31.0.1") ≡ false
unfolding is_safe_rpc_url
private_refused = refl

is_safe_rpc_url-reserved_example : is_safe_rpc_url simple (codes "172.32.0.1") ≡ true
unfolding is_safe_rpc_url
is_safe_rpc_url-reserved_example =
    is_safe_rpc_url-reserved simple (codes "172.32.0.1")
      (record { protocol = codes "http:"; hostname = codes "172.32.0.1" }) (codes "172")
      (codes "32") (codes "0") (codes "1") 172 32 0 1 refl (inl refl) refl refl
      (record { number = refl; eq = λ k. refl; ge = λ k. refl; le = λ k. refl })
      (record { number = refl; eq = λ k. refl; ge = λ k. refl; le = λ k. refl })
      (record { number = refl; eq = λ k. refl; ge = λ k. refl; le = λ k. refl })
      (record { number = refl; eq = λ k. refl; ge = λ k. refl; le = λ k. refl }) (omega arith)
      (omega arith) (omega arith)

-- ===== src/Tests/Scraper.antt =====
-- What a scraper reads at concrete slots.
use pg_what_is_happening.Base.{
  ℕ, zero, suc, ◌+◌, ◌/◌, ◌%◌, ◌^◌, ◌-◌, ◌<◌, ◌≡◌, ◌≢◌, refl, true, none, some, [], ◌∷◌, ◌++◌,
  arith, take, ltb, Bytes, codes, Bool-cases, inl, inr, if◌then◌else◌,
}
use pg_what_is_happening.Metrics.Format.{format_openmetrics}
use pg_what_is_happening.Metrics.Scrape.{scrape}
use pg_what_is_happening.Metrics.Scrape.Pieces.{IsPlain, is_plain}
use pg_what_is_happening.Metrics.Scrape.Samples.{PrintsPlain, slots_samples}
use pg_what_is_happening.Metrics.Scrape.Document.{scrape-format_openmetrics}
use pg_what_is_happening.Http.Request.{HttpRequest}
use pg_what_is_happening.Tests.Data.{decimal, naturals, printf}
use pg_what_is_happening.Tests.Texts.{busy_slots}

snoc-IsPlain : (s : Bytes) (c : ℕ) → IsPlain s → is_plain c ≡ true → IsPlain (s ++ c ∷ [])
snoc-IsPlain [] c h hc = ground arith
snoc-IsPlain (x ∷ s) c h hc = ground (arith, snoc-IsPlain s c)

digit_plain : (n : ℕ) → n < 10 → is_plain (b'0' + n) ≡ true
digit_plain n h = ground arith

decimal-IsPlain : (fuel n : ℕ) → IsPlain (decimal fuel n)
decimal-IsPlain zero n = refl
decimal-IsPlain (suc fuel) n = elim (Bool-cases (ltb n 10)) [
  | inl t ↦ rw t (ground (arith, digit_plain n))
  | inr f ↦ rw f (
      snoc-IsPlain (decimal fuel (n / 10)) (b'0' + n % 10) (decimal-IsPlain fuel (n / 10))
        (digit_plain (n % 10) (omega arith)))
]

snoc-ne : (s : Bytes) (c : ℕ) → s ++ c ∷ [] ≢ []
snoc-ne [] c e = cc
snoc-ne (x ∷ s) c e = cc

decimal-ne : (fuel n : ℕ) → decimal (suc fuel) n ≢ []
decimal-ne fuel n = elim (Bool-cases (ltb n 10)) [
  | inl t ↦ rw t (λ e. cc)
  | inr f ↦ rw f (snoc-ne (decimal fuel (n / 10)) (b'0' + n % 10))
]

signed-IsPlain :
    (fuel n bound m : ℕ) → IsPlain (if ltb n bound then decimal fuel n else b'-' ∷ decimal fuel m)
signed-IsPlain fuel n bound m = elim (Bool-cases (ltb n bound)) [
  | inl t ↦ rw t (decimal-IsPlain fuel n)
  | inr f ↦ rw f (decimal-IsPlain fuel m)
]

signed-ne :
    (fuel n bound m : ℕ)
    → (if ltb n bound then decimal (suc fuel) n else b'-' ∷ decimal (suc fuel) m) ≢ []
signed-ne fuel n bound m = elim (Bool-cases (ltb n bound)) [
  | inl t ↦ rw t (decimal-ne fuel n)
  | inr f ↦ rw f (λ e. cc)
]

pub prints_plain : PrintsPlain naturals printf
prints_plain = record {
  lu_plain = decimal-IsPlain 20;
  d_plain = λ n. signed-IsPlain 10 n (2 ^ 31) (2 ^ 32 - n);
  ld_plain = λ n. signed-IsPlain 20 n (2 ^ 63) (2 ^ 64 - n);
  ld_ne = λ n. signed-ne 19 n (2 ^ 63) (2 ^ 64 - n);
  fixed_plain = λ k x. decimal-IsPlain 20 x;
  fixed_ne = λ k x. decimal-ne 19 x;
}

scrape_example :
    scrape (
      take
        (format_openmetrics naturals printf busy_slots).offset
        (format_openmetrics naturals printf busy_slots).mem)
    ≡ some (slots_samples naturals printf busy_slots)
scrape_example = scrape-format_openmetrics naturals printf prints_plain busy_slots

-- The reader takes a metric without labels, and refuses a text that ends within a string.
bare :
    scrape (codes "# EOF\nup 1\n")
    ≡ some (record { name = codes "up"; labels = []; value = codes "1" } ∷ [])
unfolding scrape
bare = refl

cut : scrape (codes "up{a=\"b") ≡ none
unfolding scrape
cut = refl

abbrev get_metrics : HttpRequest
get_metrics = record { method = codes "GET"; path = codes "/metrics"; version = codes "HTTP/1.1" }

-- ===== src/Backends/HarmonyG2/Transport/Pages.antt =====
-- The paths of the pages of the inventory.
use smartenit_rescue.Prelude.Decimal.{test-every, show, every}
use smartenit_rescue.Prelude.{
  ap₂, any, ap, ◌∙◌, ◌==◌, ◌||◌, sym, Bool, ◌===◌, ℕ, zero, suc, ◌+◌, ◌-◌, ◌*◌, ◌/◌, ◌%◌, ◌≤◌, ◌<◌,
  Option, none, some, [], ◌∷◌, ◌++◌, refl, true, false, ◌≡◌, arith,
}
use smartenit_rescue.Prelude.Text.{
  after_prefix-append, after_prefix_sound, after_prefix, text_beq_iff, codes, text_beq, text_eq,
}
use smartenit_rescue.Prelude.Result.{Text}
use smartenit_rescue.Backends.HarmonyG2.Transport.{is_inventory_path, is_page_number}

-- the characters that no path may hold
abbrev pub is_break : ℕ → Bool
is_break c = c == 13 || (c == 10 || c == b'#')

abbrev pub inventory_path : ℕ → Text
inventory_path page = codes "/v2/devices?limit=100&page=" ++ show page

-- Numbers of pages, checked one by one.
page_table : every (λ n. is_page_number (show (n + 1))) 100 ≡ true
unfolding every is_page_number show
page_table = refl

digit_table : every (λ n. show n === (48 + n) ∷ []) 10 ≡ true
unfolding every show text_beq
digit_table = refl

two_digit_table :
    every (λ n. show (n + 10) === (48 + (n + 10) / 10) ∷ (48 + (n + 10) % 10) ∷ []) 90 ≡ true
unfolding every show text_beq
two_digit_table = refl

pub show-is_page_number : (n : ℕ) → 1 ≤ n → n ≤ 100 → is_page_number (show n) ≡ true
show-is_page_number zero low high = absurd (omega arith)
show-is_page_number (suc n) low high =
    rw (add_one n) (test-every (λ n. is_page_number (show (n + 1))) 100 n (omega arith) page_table)
  where
    add_one : (n : ℕ) → suc n ≡ n + 1
    add_one n = omega arith

show_digit : (n : ℕ) → n < 10 → show n ≡ (48 + n) ∷ []
show_digit n h =
    (text_beq_iff (show n) ((48 + n) ∷ [])).0
      (test-every (λ n. show n === (48 + n) ∷ []) 10 n h digit_table)

show_two_digits :
    (n : ℕ) → n < 90 → show (n + 10) ≡ (48 + (n + 10) / 10) ∷ (48 + (n + 10) % 10) ∷ []
show_two_digits n h =
    (text_beq_iff (show (n + 10)) ((48 + (n + 10) / 10) ∷ (48 + (n + 10) % 10) ∷ [])).0 (
      test-every (λ n. show (n + 10) === (48 + (n + 10) / 10) ∷ (48 + (n + 10) % 10) ∷ []) 90 n h
        two_digit_table)

show_hundred : show 100 ≡ codes "100"
unfolding show
show_hundred = refl

two_codes :
    (c d : ℕ) → 49 ≤ c → c ≤ 57 → 48 ≤ d → d ≤ 57 → show ((c - 48) * 10 + (d - 48)) ≡ c ∷ d ∷ []
two_codes c d h1 h2 h3 h4 =
    rw (sum_back)
      (show_two_digits m (omega arith) ∙ ap₂ (λ a b. a ∷ b ∷ []) (omega arith) (omega arith))
  where
    m : ℕ
    m = (c - 48) * 10 + (d - 48) - 10

    sum_back : (c - 48) * 10 + (d - 48) ≡ m + 10
    sum_back = omega arith

pub is_page_number-show :
    (s : Text) → is_page_number s ≡ true → (n : ℕ) × (1 ≤ n) × (n ≤ 100) × (s ≡ show n)
unfolding is_page_number
is_page_number-show [] h = cc
is_page_number-show (c ∷ []) h =
    let b : (49 ≤ c) × (c ≤ 57) = ground arith in
    (
      c - 48,
      omega arith,
      omega arith,
      sym (show_digit (c - 48) (omega arith) ∙ ap (λ k. k ∷ []) (omega arith)),
    )
is_page_number-show (c ∷ d ∷ []) h =
    let b : (49 ≤ c) × (c ≤ 57) × (48 ≤ d) × (d ≤ 57) = ground arith in
    ((c - 48) * 10 + (d - 48), omega arith, omega arith, sym (two_codes c d b.0 b.1 b.2 b.3))
is_page_number-show (c ∷ d ∷ e ∷ []) h =
    (100, omega arith, omega arith, rw show_hundred (ground arith))
is_page_number-show (c ∷ d ∷ e ∷ f ∷ s) h = cc

pub any-page : (s : Text) → is_page_number s ≡ true → any is_break s ≡ false
unfolding is_page_number
any-page [] h = cc
any-page (c ∷ []) h = ground arith
any-page (c ∷ d ∷ []) h = ground arith
any-page (c ∷ d ∷ e ∷ []) h = ground arith
any-page (c ∷ d ∷ e ∷ f ∷ s) h = cc

pub inventory_path-is_inventory_path :
    (n : ℕ) → 1 ≤ n → n ≤ 100 → is_inventory_path (inventory_path n) ≡ true
unfolding is_inventory_path
inventory_path-is_inventory_path n low high =
    rw (is_inventory_path, after_prefix-append (codes "/v2/devices?limit=100&page=") (show n))
      (show-is_page_number n low high)

pub after_page :
    (o : Option Text) (p : Text)
    → after_prefix (codes "/v2/devices?limit=100&page=") p ≡ o
    → (elim o [ none ↦ false | some page ↦ is_page_number page ]) ≡ true
    → (n : ℕ) × (1 ≤ n) × (n ≤ 100) × (p ≡ inventory_path n)
after_page none p e h = cc
after_page (some s) p e h =
    let (n, low, high, same) = is_page_number-show s h in
    (
      n,
      low,
      high,
      after_prefix_sound (codes "/v2/devices?limit=100&page=") p s e
          ∙ ap (λ r. codes "/v2/devices?limit=100&page=" ++ r) same,
    )

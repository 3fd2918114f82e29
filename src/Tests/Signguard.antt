-- ===== src/Tests/Signguard.antt =====
-- The key 7 signs, is restarted, and is asked again for heights that it has signed.
use inazuma_core.Base.{◌≡◌, refl, true, none, some, List, [], ◌∷◌, arith}
use inazuma_core.Platform.Pairs.{pair, left_of, right_of, left_of-pair, right_of-pair}
use inazuma_core.Signguard.{Format, SignGuard, open_guard}
use inazuma_core.Signguard.History.{Event, sign, restart, Synced, signed, rising, signed-rising}

abbrev pub format : Format
format = record {
  line = pair;
  words = λ x. left_of x ∷ right_of x ∷ [];
  decimal = λ h. h;
  parse_u64 = λ w. some w;
  words-line = λ a h. ground (arith, left_of-pair a h, right_of-pair a h);
  parse_u64-decimal = λ h fits. refl;
}

abbrev guard : SignGuard
guard = open_guard format none 7

guard-Synced : Synced format guard
unfolding open_guard
guard-Synced = record { remembers = refl }

abbrev history : List Event
history = sign 4 ∷ sign 4 ∷ restart ∷ sign 3 ∷ sign 5 ∷ []

signed-rising_example : rising 0 (signed format guard history) ≡ true
unfolding open_guard
signed-rising_example = signed-rising format guard history guard-Synced refl

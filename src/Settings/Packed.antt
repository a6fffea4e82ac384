-- ===== src/Settings/Packed.antt =====
-- A layout of the settings in memory, to show that there is one: a float is four bytes, three of the
-- digits and one of the sign, the decimal places and, in the first eight, a flag. What does not fit
-- is cut off.
use g_carvin.Base.{
  ℕ, ◌+◌, ◌*◌, ◌/◌, ◌%◌, ◌≡◌, refl, arith, Bool, true, false, List, [], ◌∷◌, ◌++◌, get_or, length,
  ◌==◌,
}
use g_carvin.NutsBolts.{Decimal}
use g_carvin.Settings.{Settings}
use g_carvin.Settings.Memory.{Layout, settings_size}

abbrev bit : Bool → ℕ
bit true = 1
bit false = 0

byte : ℕ → ℕ
byte n = n % 256

high_byte : ℕ → ℕ
high_byte n = n / 256 % 256

top_byte : ℕ → ℕ
top_byte n = n / 65536 % 256

last_byte : Bool → Decimal → ℕ
last_byte b v = bit v.negative + 2 * bit b + 4 * (v.exp_down % 64)

abbrev digits : Bool → Decimal → List ℕ
digits b v = byte v.intval ∷ high_byte v.intval ∷ top_byte v.intval ∷ last_byte b v ∷ []

word_of : ℕ → ℕ → ℕ
word_of a b = a % 256 + 256 * (b % 256)

flag_of : ℕ → Bool
flag_of d = d / 2 % 2 == 1

float_of : ℕ → ℕ → ℕ → ℕ → Decimal
float_of a b c d = record {
  negative = d % 2 == 1;
  intval = a % 256 + 256 * (b % 256) + 65536 * (c % 256);
  exp_up = 0;
  exp_down = d / 4 % 64;
}

abbrev decimal_at : List ℕ → ℕ → Decimal
decimal_at l k =
    float_of (get_or l k 0) (get_or l (k + 1) 0) (get_or l (k + 2) 0) (get_or l (k + 3) 0)

byte_again : (n : ℕ) → byte (byte n) ≡ byte n
unfolding byte
byte_again n = omega arith

word_again : (a b : ℕ) → word_of (byte (word_of a b)) (high_byte (word_of a b)) ≡ word_of a b
unfolding byte high_byte word_of
word_again a b = omega arith

flag_again : (b : Bool) (v : Decimal) → flag_of (last_byte b v) ≡ b
unfolding flag_of last_byte
flag_again true v = ground arith
flag_again false v = ground arith

kept_intval :
    (a b c : ℕ)
    → let n : ℕ = a % 256 + 256 * (b % 256) + 65536 * (c % 256) in
      n % 256 % 256 + 256 * (n / 256 % 256 % 256) + 65536 * (n / 65536 % 256 % 256) ≡ n
kept_intval a b c = omega arith

kept_sign : (x b : Bool) (e : ℕ) → ((bit x + 2 * bit b + 4 * (e % 64)) % 2 == 1) ≡ x
kept_sign true true e = ground arith
kept_sign true false e = ground arith
kept_sign false true e = ground arith
kept_sign false false e = ground arith

kept_places :
    (x b : Bool) (d : ℕ) → (bit x + 2 * bit b + 4 * (d / 4 % 64 % 64)) / 4 % 64 ≡ d / 4 % 64
kept_places true true d = omega arith
kept_places true false d = omega arith
kept_places false true d = omega arith
kept_places false false d = omega arith

float_again :
    (f : Bool) (a b c d : ℕ)
    → let v : Decimal = float_of a b c d in
      float_of (byte v.intval) (high_byte v.intval) (top_byte v.intval) (last_byte f v) ≡ v
unfolding float_of byte high_byte top_byte last_byte
float_again f a b c d =
    simp (kept_intval a b c, kept_sign (d % 2 == 1) f (d / 4 % 64), kept_places (d % 2 == 1) f d)

encode : Settings → List ℕ
encode s =
    digits s.flags.report_inches s.steps_per_mm.x
    ++ (digits s.flags.laser_mode s.steps_per_mm.y
        ++ (digits s.flags.invert_st_enable s.steps_per_mm.z
            ++ (digits s.flags.hard_limit_enable s.max_rate.x
                ++ (digits s.flags.homing_enable s.max_rate.y
                    ++ (digits s.flags.soft_limit_enable s.max_rate.z
                        ++ (digits s.flags.invert_limit_pins s.acceleration.x
                            ++ (digits s.flags.invert_probe_pin s.acceleration.y
                                ++ (digits false s.acceleration.z
                                    ++ (digits false s.max_travel.x
                                        ++ (digits false s.max_travel.y
                                            ++ (digits false s.max_travel.z
                                                ++ (byte s.pulse_microseconds ∷ []
                                                    ++ (byte s.step_invert_mask ∷ []
                                                        ++ (byte s.dir_invert_mask ∷ []
                                                            ++ (byte s.stepper_idle_lock_time ∷ []
                                                            ++ (byte s.status_report_mask ∷ []
                                                            ++ (digits false s.junction_deviation
                                                            ++ (digits false s.arc_tolerance
                                                            ++ (digits false s.rpm_max
                                                            ++ (digits false s.rpm_min
                                                            ++ (0 ∷ []
                                                            ++ (byte s.homing_dir_mask ∷ []
                                                            ++ (digits false s.homing_feed_rate
                                                            ++ (digits false s.homing_seek_rate
                                                            ++ (byte s.homing_debounce_delay
                                                            ∷ high_byte s.homing_debounce_delay
                                                            ∷ []
                                                            ++ (digits false
                                                            s.homing_pulloff))))))))))))))))))))))))))

decode : List ℕ → Settings
decode l = record {
  steps_per_mm = record { x = decimal_at l 0; y = decimal_at l 4; z = decimal_at l 8 };
  max_rate = record { x = decimal_at l 12; y = decimal_at l 16; z = decimal_at l 20 };
  acceleration = record { x = decimal_at l 24; y = decimal_at l 28; z = decimal_at l 32 };
  max_travel = record { x = decimal_at l 36; y = decimal_at l 40; z = decimal_at l 44 };
  pulse_microseconds = byte (get_or l 48 0);
  step_invert_mask = byte (get_or l 49 0);
  dir_invert_mask = byte (get_or l 50 0);
  stepper_idle_lock_time = byte (get_or l 51 0);
  status_report_mask = byte (get_or l 52 0);
  junction_deviation = decimal_at l 53;
  arc_tolerance = decimal_at l 57;
  rpm_max = decimal_at l 61;
  rpm_min = decimal_at l 65;
  flags = record {
    report_inches = flag_of (get_or l 3 0);
    laser_mode = flag_of (get_or l 7 0);
    invert_st_enable = flag_of (get_or l 11 0);
    hard_limit_enable = flag_of (get_or l 15 0);
    homing_enable = flag_of (get_or l 19 0);
    soft_limit_enable = flag_of (get_or l 23 0);
    invert_limit_pins = flag_of (get_or l 27 0);
    invert_probe_pin = flag_of (get_or l 31 0);
  };
  homing_dir_mask = byte (get_or l 70 0);
  homing_feed_rate = decimal_at l 71;
  homing_seek_rate = decimal_at l 75;
  homing_debounce_delay = word_of (get_or l 79 0) (get_or l 80 0);
  homing_pulloff = decimal_at l 81;
}

decode_again : (l : List ℕ) → decode (encode (decode l)) ≡ decode l
unfolding encode decode
decode_again l = simp (byte_again, word_again, flag_again, float_again)

length-encode : (s : Settings) → length (encode s) ≡ settings_size
unfolding encode
length-encode s = refl

pub packed : Layout
packed = record {
  encode = encode;
  decode = decode;
  length_encode = length-encode;
  decode_again = decode_again;
}

-- ===== src/Judge/Options.antt =====
-- common.c: the command line and the check of the configuration. `getopt` is the library's: its
-- results, option letters with their arguments, are the input.
use myoj.Common.{
  ℕ, ◌+◌, ◌-◌, ◌*◌, ◌%◌, ◌^◌, ◌≤◌, ◌<◌, ◌≡◌, refl, ◌↔◌, Bool, true, false, ◌&&◌, ◌||◌, List, [],
  ◌∷◌, ltb, leb, ◌==◌, if◌then◌else◌, arith,
}
use myoj.Common.Bytes.{Bytes}
use myoj.Judge.{ExecConfig}
use myoj.Judge.Verdict.{int_to_rlim}

abbrev pub rlim_mod : ℕ
rlim_mod = 2 ^ 64

abbrev is_digit : ℕ → Bool
is_digit c = leb b'0' c && leb c b'9'

-- The digits in front, read onto an accumulator.
unfoldable pub atoi_digits : ℕ → Bytes → ℕ
atoi_digits acc [] = acc
atoi_digits acc (c ∷ s) =
    let rest = atoi_digits (acc * 10 + (c - b'0')) s in if is_digit c then rest else acc

-- `atoi` on a text with no blank in front: the 32 bits of an `int`. Numbers that do not fit one are
-- undefined in C; glibc cuts them off, as here.
unfoldable pub atoi_uint : Bytes → ℕ
atoi_uint [] = 0
atoi_uint (c ∷ s) =
    if c == b'-'
    then (2 ^ 32 - atoi_digits 0 s % 2 ^ 32) % 2 ^ 32
    else (if c == b'+' then atoi_digits 0 s % 2 ^ 32 else atoi_digits 0 (c ∷ s) % 2 ^ 32)

abbrev pub atoi_rlim : Bytes → ℕ
atoi_rlim s = int_to_rlim (atoi_uint s)

-- One round of the loop in `getAndSetOptions`: the configuration, and whether to go on.
unfoldable pub set_option : ℕ → Bytes → ExecConfig → Bool × ExecConfig
set_option opt arg c =
    if opt == b't'
    then (true, record c { real_time_limit = atoi_rlim arg })
    else (if opt == b'c'
        then (true, record c { cpu_time_limit = atoi_rlim arg })
        else (if opt == b'm'
            then (true, record c { memory_limit = atoi_rlim arg })
            else (if opt == b'f'
                then (true, record c { output_limit = atoi_rlim arg })
                else (if opt == b'o'
                    then (true, record c { stdout_path = arg })
                    else (if opt == b'e'
                        then (true, record c { stderr_path = arg })
                        else (if opt == b'i'
                            then (true, record c { stdin_path = arg })
                            else (if opt == b'r'
                                then (true, record c { exec_path = arg })
                                else (if opt == b'l'
                                    then (true, record c { logger_path = arg })
                                    else (if opt == b'u'
                                        then (true, record c { uid = atoi_uint arg })
                                        else (if opt == b'g'
                                            then (true, record c { guard = atoi_uint arg })
                                            else (if opt == b'p'
                                                then (
                                                  true,
                                                  record c { process_limit = atoi_rlim arg },
                                                )
                                                else (false, c))))))))))))

-- `-h` and unknown options end the loop with 0; no option at all too.
unfoldable pub set_options : List (ℕ × Bytes) → ExecConfig → Bool × ExecConfig
set_options [] c = (true, c)
set_options ((opt, arg) ∷ opts) c =
    let (go, c') = set_option opt arg c in
    let rest = set_options opts c' in if go then rest else (false, c')

unfoldable pub get_and_set_options : ℕ → List (ℕ × Bytes) → ExecConfig → Bool × ExecConfig
get_and_set_options argc opts c = if argc == 1 then (false, c) else set_options opts c

-- The first byte of a C string is its end when the string is empty.
abbrev is_empty : Bytes → Bool
is_empty [] = true
is_empty (c ∷ s) = c == 0

-- The comparisons with 0 are those of unsigned numbers.
unfoldable pub validate_for_exec_config : ExecConfig → Bool
validate_for_exec_config c =
    if ltb c.cpu_time_limit 0
      || ltb c.memory_limit 1024
      || ltb c.real_time_limit 0
      || ltb c.process_limit 0
      || ltb c.output_limit 0
      || is_empty c.exec_path
    then false
    else true

-- The check of the configuration looks at the memory limit and the path only: whatever the time,
-- process and output limits are, it accepts exactly when the memory limit is at least 1024 and the
-- path to the program is not empty.
pub validate_for_exec_config_iff :
    (c : ExecConfig)
    → (validate_for_exec_config c ≡ true)
      ↔ ((1024 ≤ c.memory_limit) × (is_empty c.exec_path ≡ false))
unfolding validate_for_exec_config
validate_for_exec_config_iff c = ground arith

-- A negative time limit on the command line passes the check: a number that fits an `int` turns a
-- configuration that is accepted into one that is accepted, with a limit of 2^64 minus the number in
-- milliseconds.
pub negative_time_limit :
    (digits : Bytes) (c : ExecConfig)
    → 0 < atoi_digits 0 digits
    → atoi_digits 0 digits ≤ 2 ^ 31
    → validate_for_exec_config c ≡ true
    → (c' : ExecConfig) × (set_option b't' (b'-' ∷ digits) c ≡ (true, c'))
      × (c'.real_time_limit ≡ rlim_mod - atoi_digits 0 digits)
      × (validate_for_exec_config c' ≡ true)
unfolding set_option atoi_uint validate_for_exec_config
negative_time_limit digits c h k v =
    let n = atoi_digits 0 digits in
    let bits = (2 ^ 32 - n % 2 ^ 32) % 2 ^ 32 in
    let value : bits ≡ 2 ^ 32 - n = omega (arith, h, k) in
    (
      record c { real_time_limit = int_to_rlim bits },
      refl,
      rw value (ground (arith, h, k)),
      ground (arith, v),
    )

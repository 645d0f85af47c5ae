-- ===== src/Args.antt =====
-- lib/args.c: the command line.
pub mod CommandLine
pub mod Settings
use distributed_storage_syst.Prelude.{
  ℕ, zero, suc, ◌-◌, ◌%◌, ◌^◌, Bool, true, false, ◌&&◌, ◌||◌, not, List, [], ◌∷◌, Option, none,
  some, ◌==◌, if◌then◌else◌, length, set, replicate, ◌>>=◌,
}
use distributed_storage_syst.Text.{cstr, strncpy, strcmp_eq}
use distributed_storage_syst.Text.Numbers.{ℤ, pos, negsuc, atoi}

-- `Args`, with its two arrays of 64 characters.
pub record Args : Type 0 where
  pub id : ℤ
  pub ip : List ℕ
  pub peer_id : ℤ
  pub peer_ip : List ℕ
  pub netsize : ℤ

abbrev pub flag_id : List ℕ
flag_id = b'-' ∷ b'i' ∷ b'd' ∷ []

abbrev pub flag_ip : List ℕ
flag_ip = b'-' ∷ b'i' ∷ b'p' ∷ []

abbrev pub flag_peer_id : List ℕ
flag_peer_id = b'-' ∷ b'p' ∷ b'e' ∷ b'e' ∷ b'r' ∷ b'-' ∷ b'i' ∷ b'd' ∷ []

abbrev pub flag_peer_ip : List ℕ
flag_peer_ip = b'-' ∷ b'p' ∷ b'e' ∷ b'e' ∷ b'r' ∷ b'-' ∷ b'i' ∷ b'p' ∷ []

abbrev pub flag_netsize : List ℕ
flag_netsize =
    b'-' ∷ b'n' ∷ b'e' ∷ b't' ∷ b'w' ∷ b'o' ∷ b'r' ∷ b'k' ∷ b'-' ∷ b's' ∷ b'i' ∷ b'z' ∷ b'e' ∷ []

-- `strncpy` of 63 characters and a terminator behind them.
unfoldable pub copy_text : List ℕ → List ℕ → List ℕ
copy_text dst src = set (strncpy dst src 63) 63 0

-- What the words that are not read yet begin with.
pub data Word : Type 0 where
  unknown : Word
  undefined : Word
  sets : Args → Word

unfoldable pub number_word : (ℤ → Args) → Option ℤ → Word
number_word put none = undefined
number_word put (some n) = sets (put n)

-- A flag with the word behind it.
unfoldable pub read_flag : Args → List ℕ → List ℕ → Word
unfolding copy_text number_word
read_flag args flag value =
    if strcmp_eq flag flag_id
    then number_word (λ n. record args { id = n }) (atoi value)
    else if strcmp_eq flag flag_ip
    then sets (record args { ip = copy_text args.ip value })
    else if strcmp_eq flag flag_peer_id
    then number_word (λ n. record args { peer_id = n }) (atoi value)
    else if strcmp_eq flag flag_peer_ip
    then sets (record args { peer_ip = copy_text args.peer_ip value })
    else if strcmp_eq flag flag_netsize
    then number_word (λ n. record args { netsize = n }) (atoi value)
    else unknown

-- The loop over the words behind the name of the program; the number is 0 where a word is unknown or
-- a flag has no value. A value that `atoi` does not define is `none`.
unfoldable pub parse_words : List (List ℕ) → Args → Option (Bool × Args)
unfolding read_flag
parse_words [] args = some (true, args)
parse_words (word ∷ []) args = some (false, args)
parse_words (flag ∷ value ∷ words) args = elim (read_flag args flag value) [
  | unknown ↦ some (false, args)
  | undefined ↦ none
  | sets args' ↦ parse_words words args'
]

unfoldable pub is_positive : ℤ → Bool
is_positive (pos n) = not (n == 0)
is_positive (negsuc n) = false

-- `strlen(s) == 0`
unfoldable pub is_empty_text : List ℕ → Bool
is_empty_text s = length (cstr s) == 0

-- The tests behind the loop.
unfoldable pub is_usable : Args → Bool
unfolding is_positive is_empty_text
is_usable args =
    is_positive args.id
    && is_positive args.peer_id
    && is_positive args.netsize
    && not (is_empty_text args.ip)
    && not (is_empty_text args.peer_ip)

-- The assignments before the loop; the arrays hold anything behind the terminator.
unfoldable pub cleared : Args → Args
cleared memory = record {
  id = pos 0;
  ip = set memory.ip 0 0;
  peer_id = pos 0;
  peer_ip = set memory.peer_ip 0 0;
  netsize = pos 0;
}

-- `parse_args` at the words behind the name of the program: whether it returns 1, and what it leaves.
unfoldable pub parse_args : List (List ℕ) → Args → Option (Bool × Args)
unfolding parse_words is_usable cleared
parse_args words memory = do
  (is_read, args) ← parse_words words (cleared memory)
  some (is_read && is_usable args, args)

-- ===== src/Args/Settings.antt =====
-- A command line is a list of settings, and every later one overrides those of its kind.
use distributed_storage_syst.Prelude.{
  ℕ, ◌≡◌, ◌∙◌, ◌⊎◌, inl, inr, refl, false, List, [], ◌∷◌, some, length, set, take, length-set,
  arith,
}
use distributed_storage_syst.Text.{
  cstr, strncpy, strcmp_eq, same_bytes, cstr-set-strncpy, length-strncpy,
}
use distributed_storage_syst.Text.Numbers.{pos}
use distributed_storage_syst.Text.Decimal.{atoi-print_uint}
use distributed_storage_syst.Args.{
  Args, flag_id, flag_ip, flag_peer_id, flag_peer_ip, flag_netsize, copy_text, sets, read_flag,
  parse_words, parse_args, is_positive, is_empty_text, is_usable, cleared, number_word,
}
use distributed_storage_syst.Args.CommandLine.{
  Setting, IsSetting, AllSettings, flag_of, value_of, words_of, View, apply, apply_all, no_settings,
  is_filled, Says, id, ip, peer_id, peer_ip, netsize,
}

copy_text_lem :
    (dst src : List ℕ)
    → length dst ≡ 64
    → (cstr (copy_text dst src) ≡ take 63 (cstr src)) × (length (copy_text dst src) ≡ 64)
unfolding copy_text
copy_text_lem dst src sized = (
  cstr-set-strncpy 63 dst src sized,
  length-set (strncpy dst src 63) 63 0 ∙ length-strncpy dst src 63 (omega arith) ∙ sized,
)

read_flag-Says :
    (args : Args) (v : View) (s : Setting)
    → Says args v
    → IsSetting s
    → (args' : Args) × (read_flag args (flag_of s) (value_of s) ≡ sets args')
      × Says args' (apply v s)
unfolding read_flag strcmp_eq same_bytes cstr number_word
read_flag-Says args v (id n) says small = (
  record args { id = pos n },
  rw (read_flag, atoi-print_uint n [] small tt) refl,
  record {
    id = refl;
    ip = says.ip;
    ip_sized = says.ip_sized;
    peer_id = says.peer_id;
    peer_ip = says.peer_ip;
    peer_ip_sized = says.peer_ip_sized;
    netsize = says.netsize;
  },
)
read_flag-Says args v (ip s) says small =
    let (text, sized) = copy_text_lem args.ip s says.ip_sized in
    (
      record args { ip = copy_text args.ip s },
      refl,
      record {
        id = says.id;
        ip = text;
        ip_sized = sized;
        peer_id = says.peer_id;
        peer_ip = says.peer_ip;
        peer_ip_sized = says.peer_ip_sized;
        netsize = says.netsize;
      },
    )
read_flag-Says args v (peer_id n) says small = (
  record args { peer_id = pos n },
  rw (read_flag, atoi-print_uint n [] small tt) refl,
  record {
    id = says.id;
    ip = says.ip;
    ip_sized = says.ip_sized;
    peer_id = refl;
    peer_ip = says.peer_ip;
    peer_ip_sized = says.peer_ip_sized;
    netsize = says.netsize;
  },
)
read_flag-Says args v (peer_ip s) says small =
    let (text, sized) = copy_text_lem args.peer_ip s says.peer_ip_sized in
    (
      record args { peer_ip = copy_text args.peer_ip s },
      refl,
      record {
        id = says.id;
        ip = says.ip;
        ip_sized = says.ip_sized;
        peer_id = says.peer_id;
        peer_ip = text;
        peer_ip_sized = sized;
        netsize = says.netsize;
      },
    )
read_flag-Says args v (netsize n) says small = (
  record args { netsize = pos n },
  rw (read_flag, atoi-print_uint n [] small tt) refl,
  record {
    id = says.id;
    ip = says.ip;
    ip_sized = says.ip_sized;
    peer_id = says.peer_id;
    peer_ip = says.peer_ip;
    peer_ip_sized = says.peer_ip_sized;
    netsize = refl;
  },
)

parse_words-words_of :
    (ss : List Setting) (rest : List (List ℕ)) (args : Args) (v : View)
    → Says args v
    → AllSettings ss
    → (args' : Args) × (parse_words (words_of ss rest) args ≡ parse_words rest args')
      × Says args' (apply_all v ss)
unfolding parse_words
parse_words-words_of [] rest args v says small = (args, refl, says)
parse_words-words_of (s ∷ ss) rest args v says (first, small) =
    let (next, read, says') = read_flag-Says args v s says first in
    let (args', run, said) = parse_words-words_of ss rest next (apply v s) says' small in
    (args', rw (parse_words, read) run, said)

cleared-Says :
    (memory : Args)
    → length memory.ip ≡ 64
    → length memory.peer_ip ≡ 64
    → Says (cleared memory) no_settings
unfolding cleared cstr
cleared-Says memory sized peer_sized = record {
  id = refl;
  ip = empty memory.ip;
  ip_sized = length-set memory.ip 0 0 ∙ sized;
  peer_id = refl;
  peer_ip = empty memory.peer_ip;
  peer_ip_sized = length-set memory.peer_ip 0 0 ∙ peer_sized;
  netsize = refl;
}
  where
    empty : (xs : List ℕ) → cstr (set xs 0 0) ≡ []
    empty [] = refl
    empty (x ∷ xs) = refl

is_usable-Says : (args : Args) (v : View) → Says args v → is_usable args ≡ is_filled v
unfolding is_usable is_positive is_empty_text
is_usable-Says args v says =
    rw (is_usable, says.id, says.peer_id, says.netsize, says.ip, says.peer_ip) refl

-- parse_args at the words of a list of settings, whose numbers an int holds, leaves in arrays of
-- 64 characters what the settings say one after the other, a text cut to 63 characters, the last
-- of each kind overriding the others, and returns 1 exactly where ids, size and addresses are all
-- given and not 0 or empty.
pub parse_args-settings :
    (ss : List Setting) (memory : Args)
    → AllSettings ss
    → length memory.ip ≡ 64
    → length memory.peer_ip ≡ 64
    → (args : Args) × (parse_args (words_of ss []) memory
        ≡ some (is_filled (apply_all no_settings ss), args))
      × Says args (apply_all no_settings ss)
unfolding parse_args parse_words
parse_args-settings ss memory small sized peer_sized =
    let (args, run, says) =
      parse_words-words_of ss [] (cleared memory) no_settings (cleared-Says memory sized peer_sized)
        small in
    (args, rw (parse_args, run, is_usable-Says args (apply_all no_settings ss) says) refl, says)

-- No flag of the five.
abbrev pub IsUnknown : List ℕ → Type 0
IsUnknown word =
    (strcmp_eq word flag_id ≡ false)
    × (strcmp_eq word flag_ip ≡ false)
    × (strcmp_eq word flag_peer_id ≡ false)
    × (strcmp_eq word flag_peer_ip ≡ false)
    × (strcmp_eq word flag_netsize ≡ false)

stops :
    (word : List ℕ) (words : List (List ℕ)) (args : Args)
    → (words ≡ []) ⊎ IsUnknown word
    → parse_words (word ∷ words) args ≡ some (false, args)
unfolding parse_words read_flag
stops word [] args cause = refl
stops word (value ∷ words) args (inl none_left) = cc
stops word (value ∷ words) args (inr (a, b, c, d, e)) =
    rw (parse_words, read_flag, a, b, c, d, e) refl

-- Behind settings whose numbers an int holds, parse_args returns 0 at the last word of the line,
-- whatever it is, and at a word that is none of the five flags, and leaves what the settings
-- before it say.
pub parse_args-stops :
    (ss : List Setting) (memory : Args) (word : List ℕ) (words : List (List ℕ))
    → AllSettings ss
    → length memory.ip ≡ 64
    → length memory.peer_ip ≡ 64
    → (words ≡ []) ⊎ IsUnknown word
    → (args : Args) × (parse_args (words_of ss (word ∷ words)) memory ≡ some (false, args))
      × Says args (apply_all no_settings ss)
unfolding parse_args
parse_args-stops ss memory word words small sized peer_sized cause =
    let (args, run, says) =
      parse_words-words_of ss (word ∷ words) (cleared memory) no_settings
        (cleared-Says memory sized peer_sized) small in
    (args, rw (parse_args, run, stops word words args cause) refl, says)

-- ===== src/Args/CommandLine.antt =====
-- lib/args.c: the command line as a list of settings, and what it says.
use distributed_storage_syst.Prelude.{
  ℕ, ◌^◌, ◌<◌, ◌≡◌, Bool, ◌&&◌, not, List, [], ◌∷◌, ◌==◌, length, take,
}
use distributed_storage_syst.Text.{cstr}
use distributed_storage_syst.Text.Numbers.{pos, print_uint}
use distributed_storage_syst.Args.{Args, flag_id, flag_ip, flag_peer_id, flag_peer_ip, flag_netsize}

-- A flag with its value.
pub data Setting : Type 0 where
  id : ℕ → Setting
  ip : List ℕ → Setting
  peer_id : ℕ → Setting
  peer_ip : List ℕ → Setting
  netsize : ℕ → Setting

-- The numbers fit in an `int`.
abbrev pub IsSetting : Setting → Type 0
IsSetting (id n) = n < 2 ^ 31
IsSetting (ip s) = Unit {0}
IsSetting (peer_id n) = n < 2 ^ 31
IsSetting (peer_ip s) = Unit {0}
IsSetting (netsize n) = n < 2 ^ 31

abbrev pub AllSettings : List Setting → Type 0
AllSettings [] = Unit {0}
AllSettings (s ∷ ss) = IsSetting s × AllSettings ss

abbrev pub flag_of : Setting → List ℕ
flag_of (id n) = flag_id
flag_of (ip s) = flag_ip
flag_of (peer_id n) = flag_peer_id
flag_of (peer_ip s) = flag_peer_ip
flag_of (netsize n) = flag_netsize

abbrev pub value_of : Setting → List ℕ
value_of (id n) = print_uint n []
value_of (ip s) = s
value_of (peer_id n) = print_uint n []
value_of (peer_ip s) = s
value_of (netsize n) = print_uint n []

-- The settings as words, in front of others.
abbrev pub words_of : List Setting → List (List ℕ) → List (List ℕ)
words_of [] rest = rest
words_of (s ∷ ss) rest = flag_of s ∷ value_of s ∷ words_of ss rest

-- What the arguments say, without the arrays.
pub record View : Type 0 where
  pub id : ℕ
  pub ip : List ℕ
  pub peer_id : ℕ
  pub peer_ip : List ℕ
  pub netsize : ℕ

abbrev pub apply : View → Setting → View
apply v (id n) = record v { id = n }
apply v (ip s) = record v { ip = take 63 (cstr s) }
apply v (peer_id n) = record v { peer_id = n }
apply v (peer_ip s) = record v { peer_ip = take 63 (cstr s) }
apply v (netsize n) = record v { netsize = n }

abbrev pub apply_all : View → List Setting → View
apply_all v [] = v
apply_all v (s ∷ ss) = apply_all (apply v s) ss

abbrev pub no_settings : View
no_settings = record { id = 0; ip = []; peer_id = 0; peer_ip = []; netsize = 0 }

abbrev pub is_filled : View → Bool
is_filled v =
    not (v.id == 0)
    && not (v.peer_id == 0)
    && not (v.netsize == 0)
    && not (length v.ip == 0)
    && not (length v.peer_ip == 0)

-- The arguments say this.
pub record Says (args : Args) (v : View) : Type 0 where
  pub id : args.id ≡ pos v.id
  pub ip : cstr args.ip ≡ v.ip
  pub ip_sized : length args.ip ≡ 64
  pub peer_id : args.peer_id ≡ pos v.peer_id
  pub peer_ip : cstr args.peer_ip ≡ v.peer_ip
  pub peer_ip_sized : length args.peer_ip ≡ 64
  pub netsize : args.netsize ≡ pos v.netsize

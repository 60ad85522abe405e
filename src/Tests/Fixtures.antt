-- ===== src/Tests/Fixtures.antt =====
-- Concrete surroundings and managers for the tests.
use Prim.Native.String.{char_at}
use etcd_studio.Base.{
  Char, code, ℕ, ◌-◌, ◌&&◌, String, Bool, false, ◌==◌, none, some, [], leb, ltb, if◌then◌else◌,
  refl,
}
use etcd_studio.Text.{Unicode}
use etcd_studio.Auth.Types.{
  Manager, Principal, LocalUserInput, Call, Crypto, role_admin, role_operator, provider_local,
}
use etcd_studio.Auth.Manager.Bootstrap.{bootstrap}
use etcd_studio.Auth.Manager.Accounts.{create_user}
use etcd_studio.Auth.Manager.Sessions.{create_session}
use etcd_studio.Auth.Manager.Invariant.{IsGood}
use etcd_studio.Auth.Preserved.Reach.{
  new_manager, Reach, here, bootstrapped, user_created, session_created, Reach-IsGood,
  new_manager-IsGood,
}

abbrev between : ℕ → ℕ → ℕ → Bool
between low high c = leb low c && leb c high

abbrev lower_ascii : Char → Char
lower_ascii c =
    if between 65 90 (code c) then char_at "abcdefghijklmnopqrstuvwxyz" (code c - 65) else c

-- The tables of package unicode for the characters of ASCII.
instance abbrev pub ascii : Unicode
ascii = record {
  lower = lower_ascii;
  fold = lower_ascii;
  is_upper = λ c. between 65 90 (code c);
  is_lower = λ c. between 97 122 (code c);
  is_digit = λ c. between 48 57 (code c);
  is_punct = λ c. between 33 47 (code c);
  is_symbol = λ c. between 60 62 (code c);
  is_control = λ c. ltb (code c) 32;
}

-- Every text is its own hash.
instance abbrev pub plain : Crypto
plain = record { bcrypt_matches = λ hash password. hash == password; sha256_hex = λ s. s }

abbrev pub monday : Call
monday = record { now = 5; fails = λ _. false; generate = λ s. some s }

abbrev account : String → String → LocalUserInput
account name role = record {
  username = name;
  display_name = "";
  password = "Passw0rd!!";
  role = role;
  active = none;
  cluster_ids = [];
}

abbrev pub root_input : LocalUserInput
root_input = account "root" role_admin

abbrev pub bob_input : LocalUserInput
bob_input = account "Bob" role_operator

abbrev pub bob : Principal
bob = record {
  username = "Bob";
  display_name = "Bob";
  provider = provider_local;
  role = role_operator;
  cluster_ids = [];
  must_change_password = false;
}

abbrev pub set_up : Manager
set_up = (bootstrap root_input false monday new_manager).1

abbrev pub staffed : Manager
staffed = (create_user bob_input monday set_up).1

abbrev pub logged_in : Manager
logged_in = (create_session bob (some "token") 7 7 staffed).1

pub logged_in-Reach : Reach new_manager logged_in
logged_in-Reach =
    session_created
      (user_created (bootstrapped (here new_manager) root_input false monday refl) bob_input monday
        refl)
      bob (some "token") 7 7

pub staffed-IsGood : IsGood staffed
staffed-IsGood =
    Reach-IsGood
      (user_created (bootstrapped (here new_manager) root_input false monday refl) bob_input monday
        refl)
      new_manager-IsGood

-- ===== src/Net/Server/State.antt =====
-- `InMemoryServer`, and the effects of its methods. A channel of `mpsc` is a number; `is_open` says
-- whether its receiver is there, and `sent` is all that was sent so far, oldest first.
use Prim.Native.String.{◌++◌ as text_append}
use holochain_rust.Prelude.HashMap.{Map}
use holochain_rust.Prelude.{
  ltb, nat_beq, if◌then◌else◌, ℕ, zero, suc, ◌/◌, ◌%◌, String, Bool, List, [], ◌∷◌, ◌++◌,
}
use holochain_rust.Net.Book.{CellBook, HashSet}
use holochain_rust.Net.Protocol.{JsonProtocol}

pub record InMemoryServer : Type 0 where
  pub name : String
  pub senders : Map String ℕ
  pub senders_by_dna : Map String (Map String ℕ)
  pub client_count : ℕ
  pub published_book : CellBook
  pub stored_book : CellBook
  pub trackdna_book : HashSet
  pub request_book : Map String String
  pub request_count : ℕ
  pub is_open : ℕ → Bool
  pub sent : List (ℕ × JsonProtocol)

pub data NetError : Type 0 where
  not_tracked : NetError
  no_sender_channel : String → String → NetError
  send_error : NetError

-- A method returns, fails with an error, or panics.
pub data Outcome (A : Type 0) : Type 0 where
  done : A → Outcome A
  failed : NetError → Outcome A
  panicked : Outcome A

-- A method on `&mut self`: its effects stay when it fails.
abbrev pub M : Type 0 → Type 0
M A = InMemoryServer → Outcome A × InMemoryServer

abbrev pub then_do :
    {A B : Type 0} → Outcome A × InMemoryServer → (A → M B) → Outcome B × InMemoryServer
then_do (done a, s) f = f a s
then_do (failed e, s) f = (failed e, s)
then_do (panicked, s) f = (panicked, s)

infixl 5 ◌>>=◌ ◌>>◌
abbrev pub ◌>>=◌ : {A B : Type 0} → M A → (A → M B) → M B
◌>>=◌ m f s = then_do (m s) f

abbrev pub ◌>>◌ : {B : Type 0} → M (Unit {0}) → M B → M B
◌>>◌ m k s = then_do (m s) (λ _. k)

abbrev pub pure : {A : Type 0} → A → M A
pure a s = (done a, s)

abbrev pub fail : {A : Type 0} → NetError → M A
fail e s = (failed e, s)

abbrev pub panic : {A : Type 0} → M A
panic s = (panicked, s)

-- `.expect(…)` on the result of a method
abbrev pub or_panic : {A : Type 0} → Outcome A × InMemoryServer → Outcome A × InMemoryServer
or_panic (done a, s) = (done a, s)
or_panic (failed e, s) = (panicked, s)
or_panic (panicked, s) = (panicked, s)

abbrev pub expect : {A : Type 0} → M A → M A
expect m s = or_panic (m s)

-- `if !is_tracking { return Ok(()) }` before the rest
abbrev pub if_tracking : M Bool → M (Unit {0}) → M (Unit {0})
if_tracking m k = m >>= λ t. if t then k else pure tt

-- `Sender::send`
unfoldable pub send : ℕ → JsonProtocol → M (Unit {0})
send channel msg s =
    if s.is_open channel
    then (done tt, record s { sent = s.sent ++ (channel, msg) ∷ [] })
    else (failed send_error, s)

-- The decimal text of a number: the digits are at most as many as the number, and one.
abbrev digit : ℕ → String
digit d =
    if nat_beq d 0
    then "0"
    else if nat_beq d 1
    then "1"
    else if nat_beq d 2
    then "2"
    else if nat_beq d 3
    then "3"
    else if nat_beq d 4
    then "4"
    else if nat_beq d 5
    then "5"
    else if nat_beq d 6
    then "6"
    else if nat_beq d 7
    then "7"
    else if nat_beq d 8
    then "8"
    else "9"

unfoldable pub decimal : ℕ → ℕ → String
decimal zero n = digit (n % 10)
decimal (suc fuel) n =
    let more = text_append (decimal fuel (n / 10)) (digit (n % 10)) in
    if ltb n 10 then digit (n % 10) else more

-- ===== src/Net/Server/Extends.antt =====
-- What no message to the server undoes: `serve` leaves the connections as they are, sends only on
-- open channels, and forgets nothing that its books have.
use holochain_rust.Prelude.{
  if◌then◌else◌, All, ℕ, String, ◌≡◌, refl, sym, ap, ◌∙◌, Bool, true, false, List, [], ◌∷◌, ◌++◌,
  append-nil, append_assoc,
}
use holochain_rust.Net.Server.State.{
  panicked, InMemoryServer, Outcome, or_panic, then_do, if_tracking, M, done, failed, ◌>>=◌, ◌>>◌,
  expect, pure,
}
use holochain_rust.Net.Book.{CellBook, book_has}
use holochain_rust.Net.Protocol.{JsonProtocol}

-- All that was sent is still there, and what came after it went to open channels.
abbrev pub SendsOnly : (ℕ → Bool) → List (ℕ × JsonProtocol) → List (ℕ × JsonProtocol) → Type 0
SendsOnly is_open before after =
    (extra : List (ℕ × JsonProtocol)) × (after ≡ before ++ extra)
    × All (λ m. is_open m.0 ≡ true) extra

abbrev pub Remembers : CellBook → CellBook → Type 0
Remembers before after =
    (cell base d : String) → book_has before cell base d ≡ true → book_has after cell base d ≡ true

pub record Extends (s t : InMemoryServer) : Type 0 where
  pub same_senders : t.senders ≡ s.senders
  pub same_senders_by_dna : t.senders_by_dna ≡ s.senders_by_dna
  pub same_client_count : t.client_count ≡ s.client_count
  pub same_channels : t.is_open ≡ s.is_open
  pub only_sends : SendsOnly s.is_open s.sent t.sent
  pub published : Remembers s.published_book t.published_book
  pub stored : Remembers s.stored_book t.stored_book

All-append : {A : Type 0} (P : A → Type 0) (xs ys : List A) → All P xs → All P ys → All P (xs ++ ys)
All-append P [] ys ps qs = qs
All-append P (x ∷ xs) ys (p, ps) qs = (p, All-append P xs ys ps qs)

pub Extends-refl : (s : InMemoryServer) → Extends s s
Extends-refl s = record {
  same_senders = refl;
  same_senders_by_dna = refl;
  same_client_count = refl;
  same_channels = refl;
  only_sends = ([], sym (append-nil s.sent), tt);
  published = λ cell base d has. has;
  stored = λ cell base d has. has;
}

SendsOnly-trans :
    (is_open is_open' : ℕ → Bool) (a b c : List (ℕ × JsonProtocol))
    → is_open' ≡ is_open
    → SendsOnly is_open a b
    → SendsOnly is_open' b c
    → SendsOnly is_open a c
SendsOnly-trans is_open is_open' a b c same (x, e, ps) (y, e', qs) = (
  x ++ y,
  e' ∙ ap (λ l. l ++ y) e ∙ append_assoc a x y,
  All-append (λ m. is_open m.0 ≡ true) x y ps (rw same at qs),
)

pub Extends-trans : (s t u : InMemoryServer) → Extends s t → Extends t u → Extends s u
Extends-trans s t u f g = record {
  same_senders = g.same_senders ∙ f.same_senders;
  same_senders_by_dna = g.same_senders_by_dna ∙ f.same_senders_by_dna;
  same_client_count = g.same_client_count ∙ f.same_client_count;
  same_channels = g.same_channels ∙ f.same_channels;
  only_sends =
      SendsOnly-trans s.is_open t.is_open s.sent t.sent u.sent f.same_channels f.only_sends
        g.only_sends;
  published = λ cell base d has. g.published cell base d (f.published cell base d has);
  stored = λ cell base d has. g.stored cell base d (f.stored cell base d has);
}

-- A method that, whatever its outcome, leaves a state that extends the one it began with
abbrev pub Keeps : {A : Type 0} → M A → Type 0
Keeps m = (s : InMemoryServer) → Extends s (m s).1

then_do-Keeps :
    {A B : Type 0} (s : InMemoryServer) (r : Outcome A × InMemoryServer) (f : A → M B)
    → Extends s r.1
    → ((a : A) → Keeps (f a))
    → Extends s (then_do r f).1
then_do-Keeps s (done a, t) f e k = Extends-trans s t (f a t).1 e (k a t)
then_do-Keeps s (failed x, t) f e k = e
then_do-Keeps s (panicked, t) f e k = e

pub bind-Keeps :
    {A B : Type 0} (m : M A) (f : A → M B) → Keeps m → ((a : A) → Keeps (f a)) → Keeps (m >>= f)
bind-Keeps m f km kf s = then_do-Keeps s (m s) f (km s) kf

pub then-Keeps : {B : Type 0} (m : M (Unit {0})) (k : M B) → Keeps m → Keeps k → Keeps (m >> k)
then-Keeps m k km kk s = then_do-Keeps s (m s) (λ _. k) (km s) (λ _. kk)

or_panic-Keeps :
    {A : Type 0} (s : InMemoryServer) (r : Outcome A × InMemoryServer)
    → Extends s r.1
    → Extends s (or_panic r).1
or_panic-Keeps s (done a, t) e = e
or_panic-Keeps s (failed x, t) e = e
or_panic-Keeps s (panicked, t) e = e

pub expect-Keeps : {A : Type 0} (m : M A) → Keeps m → Keeps (expect m)
expect-Keeps m km s = or_panic-Keeps s (m s) (km s)

branch-Keeps : (t : Bool) (k : M (Unit {0})) → Keeps k → Keeps (if t then k else pure tt)
branch-Keeps true k kk = kk
branch-Keeps false k kk = Extends-refl

pub if_tracking-Keeps :
    (m : M Bool) (k : M (Unit {0})) → Keeps m → Keeps k → Keeps (if_tracking m k)
if_tracking-Keeps m k km kk =
    bind-Keeps m (λ t. if t then k else pure tt) km (λ t. branch-Keeps t k kk)

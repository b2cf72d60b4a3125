-- ===== src/Api/Hub/Laws.antt =====
-- Who is subscribed after each operation on the hub.
use mathlib.Core.List.{Memᴰ}
use twinval_go_backend.Prelude.{
  ◌≢◌, keep-cong, keep-keep, keep-all, ◌&&◌, ◌||◌, ℕ, ◌≡◌, refl, sym, ap, ◌∙◌, Bool, true, false,
  not, List, [], ◌∷◌, keep, arith, if◌then◌else◌, ◌==◌, Bool-cases, Option-cases, inl, inr, ==_iff,
}
use twinval_go_backend.Prelude.Text.{Text, text_eq, text_eq_iff, text_eq_refl}
use twinval_go_backend.Prelude.Maps.{lookup, lookup-insert, lookup-erase}
use twinval_go_backend.Api.Hub.{
  close_web_socket, Hub, conns_of, has_conn, with_conn, without_conn, register, put_set, unregister,
  send_each, broadcast_json,
}

conns_of-register :
    (p q : Text) (c : ℕ) (h : Hub)
    → conns_of q (register p c h)
      ≡ (if text_eq q p then with_conn c (conns_of p h) else conns_of q h)
unfolding register
conns_of-register p q c h = ground (arith, lookup-insert q p (with_conn c (conns_of p h)) h)

conns_of-put_set :
    (p q : Text) (set : List ℕ) (h : Hub)
    → conns_of q (put_set p set h) ≡ (if text_eq q p then set else conns_of q h)
unfolding put_set
conns_of-put_set p q [] h = ground (arith, lookup-erase q p h)
conns_of-put_set p q (c ∷ cs) h = ground (arith, lookup-insert q p (c ∷ cs) h)

conns_of-unregister :
    (p q : Text) (c : ℕ) (h : Hub)
    → conns_of q (unregister p c h)
      ≡ (if text_eq q p then without_conn c (conns_of p h) else conns_of q h)
unfolding unregister
conns_of-unregister p q c h = elim (Option-cases (lookup p h)) [
  | inl e ↦ ground (arith, text_eq_iff q p)
  | inr (set, e) ↦ ground (arith, conns_of-put_set p q (without_conn c set) h)
]

-- Some connections fail: without them, and only them.
abbrev without_failed : (ℕ → Bool) → List ℕ → List ℕ → List ℕ
without_failed ok [] set = set
without_failed ok (c ∷ cs) set = without_failed ok cs (if ok c then set else without_conn c set)

conns_of-send_each :
    (ok : ℕ → Bool) (p q : Text) (h : Hub) (cs : List ℕ)
    → conns_of q (send_each ok p h cs).0
      ≡ (if text_eq q p then without_failed ok cs (conns_of p h) else conns_of q h)
unfolding send_each
conns_of-send_each ok p q h [] = ground (arith, text_eq_iff q p)
conns_of-send_each ok p q h (c ∷ cs) = elim (Bool-cases (ok c)) [
  | inl e ↦ rw e (conns_of-send_each ok p q h cs)
  | inr e ↦ rw e (
      ground (
        arith,
        conns_of-send_each ok p q (unregister p c h) cs,
        conns_of-unregister p q c h,
        conns_of-unregister p p c h,
        text_eq_refl p,
      ))
]

closed-send_each :
    (ok : ℕ → Bool) (p : Text) (h : Hub) (cs : List ℕ)
    → (send_each ok p h cs).1 ≡ keep (λ c. not (ok c)) cs
unfolding send_each
closed-send_each ok p h [] = refl
closed-send_each ok p h (c ∷ cs) = elim (Bool-cases (ok c)) [
  | inl e ↦ rw e (closed-send_each ok p h cs)
  | inr e ↦ rw e (ap (λ xs. c ∷ xs) (closed-send_each ok p (unregister p c h) cs))
]

has_conn-mem : (c : ℕ) (cs : List ℕ) → Memᴰ c cs → has_conn c cs ≡ true
has_conn-mem c [] m = elim m [ ]
has_conn-mem c (x ∷ xs) (Memᴰ.head e) = ground arith
has_conn-mem c (x ∷ xs) (Memᴰ.tail m) = ground (arith, has_conn-mem c xs m)

-- What stays: it was not sent to, or the send succeeded.
stays : (ℕ → Bool) → List ℕ → ℕ → Bool
stays ok cs x = ok x || not (has_conn x cs)

stays-nil : (ok : ℕ → Bool) (x : ℕ) → stays ok [] x ≡ true
unfolding stays
stays-nil ok x = ground arith

stays-ok :
    (ok : ℕ → Bool) (c : ℕ) (cs : List ℕ) (x : ℕ)
    → ok c ≡ true
    → stays ok cs x ≡ stays ok (c ∷ cs) x
unfolding stays
stays-ok ok c cs x e = elim (Bool-cases (x == c)) [
  | inl q ↦ let s : ok x ≡ true = ap ok ((==_iff x c).0 q) ∙ e in rw s refl
  | inr q ↦ rw q refl
]

stays-failed :
    (ok : ℕ → Bool) (c : ℕ) (cs : List ℕ) (x : ℕ)
    → ok c ≡ false
    → (not (x == c) && stays ok cs x) ≡ stays ok (c ∷ cs) x
unfolding stays
stays-failed ok c cs x e = elim (Bool-cases (x == c)) [
  | inl q ↦ let s : ok x ≡ false = ap ok ((==_iff x c).0 q) ∙ e in rw (q, s) refl
  | inr q ↦ rw q refl
]

without_failed-eq-keep :
    (ok : ℕ → Bool) (cs set : List ℕ) → without_failed ok cs set ≡ keep (stays ok cs) set
without_failed-eq-keep ok [] set = sym (keep-all (stays ok []) set (stays-nil ok))
without_failed-eq-keep ok (c ∷ cs) set = elim (Bool-cases (ok c)) [
  | inl e ↦ rw e (
      without_failed-eq-keep ok cs set
      ∙ keep-cong (stays ok cs) (stays ok (c ∷ cs)) set (λ x m. stays-ok ok c cs x e))
  | inr e ↦ rw e (
      without_failed-eq-keep ok cs (without_conn c set)
      ∙ keep-keep (stays ok cs) (λ x. not (x == c)) set
      ∙ keep-cong (λ x. not (x == c) && stays ok cs x) (stays ok (c ∷ cs)) set
          (λ x m. stays-failed ok c cs x e))
]

stays-mem : (ok : ℕ → Bool) (cs : List ℕ) (x : ℕ) → Memᴰ x cs → stays ok cs x ≡ ok x
unfolding stays
stays-mem ok cs x m = ground (arith, has_conn-mem x cs m)

-- BroadcastJSON to a property: exactly its connections whose send succeeds stay subscribed, in
-- their order, exactly the others are closed, and the subscribers of all other properties stay.
pub broadcast_json-conns_of :
    {A : Type 0} (send : ℕ → A → Bool) (p q : Text) (payload : A) (h : Hub)
    → let (h', closed) = broadcast_json send p payload h in
      (conns_of q h'
        ≡ (if text_eq q p then keep (λ c. send c payload) (conns_of p h) else conns_of q h))
      × (closed ≡ keep (λ c. not (send c payload)) (conns_of p h))
unfolding broadcast_json
broadcast_json-conns_of send p q payload h =
    let ok : ℕ → Bool = λ c. send c payload in
    (
      conns_of-send_each ok p q h (conns_of p h)
          ∙ ap (λ xs. if text_eq q p then xs else conns_of q h)
              (without_failed-eq-keep ok (conns_of p h) (conns_of p h)
                ∙ keep-cong (stays ok (conns_of p h)) ok (conns_of p h)
                    (λ x m. stays-mem ok (conns_of p h) x m)),
      closed-send_each ok p h (conns_of p h),
    )

-- A delete leaves no occurrence behind.
has_conn-keep : (c : ℕ) (set : List ℕ) → has_conn c (without_conn c set) ≡ false
has_conn-keep c [] = refl
has_conn-keep c (x ∷ xs) = ground (arith, has_conn-keep c xs, ==_iff c x, ==_iff x c)

close_web_socket-conns_of :
    (p : Text) (c : ℕ) (h : Hub) → p ≢ [] → has_conn c (conns_of p (close_web_socket p c h)) ≡ false
unfolding close_web_socket
close_web_socket-conns_of p c h n = ground (
  arith,
  text_eq_iff p [],
  n,
  conns_of-unregister p p c h,
  text_eq_refl p,
  has_conn-keep c (conns_of p h),
)

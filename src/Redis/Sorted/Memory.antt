-- ===== src/Redis/Sorted/Memory.antt =====
-- A store in memory that keeps what Redis/Sorted asks for: sorted sets as lists in the order of scores.
use daiki_aipass_backend.Prelude.{
  ℕ, suc, ◌≤◌, ◌<◌, ◌≡◌, refl, sym, ap, ◌∙◌, String, Option, none, some, true, false, List, [], ◌∷◌,
  str_eq, leb, if◌then◌else◌, length, take, map, arith, Bool-cases, inl, inr, eq_iff, eq_refl,
}
use daiki_aipass_backend.Redis.Sorted.{Leases, both_eq}

abbrev pub Entries : Type 0
Entries = List (ℕ × String)

abbrev pub find : Entries → String → Option ℕ
find [] n = none
find ((s, m) ∷ es) n = let rest = find es n in if str_eq m n then some s else rest

abbrev pub remove : String → Entries → Entries
remove n [] = []
remove n ((s, m) ∷ es) = let rest = remove n es in if str_eq n m then rest else (s, m) ∷ rest

abbrev pub insert : ℕ → String → Entries → Entries
insert s n [] = (s, n) ∷ []
insert s n ((t, m) ∷ es) =
    let rest = insert s n es in if leb t s then (t, m) ∷ rest else (s, n) ∷ (t, m) ∷ es

abbrev pub remove_up_to : ℕ → Entries → Entries
remove_up_to top [] = []
remove_up_to top ((s, m) ∷ es) =
    let rest = remove_up_to top es in if leb s top then rest else (s, m) ∷ rest

same_as : (m x n : String) → str_eq m n ≡ true → str_eq x n ≡ true → str_eq m x ≡ true
same_as m x n h k =
    let left : m ≡ n = (eq_iff m n).0 h in
    let right : n ≡ x = sym ((eq_iff x n).0 k) in (eq_iff m x).1 (left ∙ right)

same_then : (m x n : String) → str_eq m x ≡ true → str_eq x n ≡ str_eq m n
same_then m x n h = ap (λ y. str_eq y n) (sym ((eq_iff m x).0 h))

find-remove :
    (m : String) (es : Entries) (n : String)
    → find (remove m es) n ≡ (if str_eq m n then none else find es n)
find-remove m [] n = ground arith
find-remove m ((s, x) ∷ es) n = elim (Bool-cases (str_eq m x)) [
  | inl e ↦ rw (e, same_then m x n e) (find-remove m es n ∙ ground arith)
  | inr e ↦ ground (arith, find-remove m es n, same_as m x n)
]

find-insert :
    (s : ℕ) (m : String) (es : Entries) (n : String)
    → find es m ≡ none
    → find (insert s m es) n ≡ (if str_eq m n then some s else find es n)
find-insert s m [] n h = refl
find-insert s m ((t, x) ∷ es) n h =
    let differ : str_eq x m ≡ false = ground arith in
    ground (arith, find-insert s m es n, same_as x m n)

pub find-remove_up_to :
    (top : ℕ) (es : Entries) (n : String) (s : ℕ)
    → find es n ≡ some s
    → top < s
    → find (remove_up_to top es) n ≡ some s
find-remove_up_to top [] n s h k = ground arith
find-remove_up_to top ((t, x) ∷ es) n s h k = ground (arith, find-remove_up_to top es n s)

pub length-remove : (m : String) (es : Entries) → length (remove m es) ≤ length es
length-remove m [] = omega arith
length-remove m ((s, x) ∷ es) = ground (arith, length-remove m es)

pub length-insert : (s : ℕ) (m : String) (es : Entries) → length (insert s m es) ≡ suc (length es)
length-insert s m [] = refl
length-insert s m ((t, x) ∷ es) = ground (arith, length-insert s m es)

length-remove_up_to : (top : ℕ) (es : Entries) → length (remove_up_to top es) ≤ length es
length-remove_up_to top [] = omega arith
length-remove_up_to top ((s, x) ∷ es) = ground (arith, length-remove_up_to top es)

pub record Store : Type 0 where
  pub sets : String → Entries
  pub texts : String → String → Option String
  pub numbers : String → String → Option ℕ
  pub values : String → Option String

-- `f` with a new value at one key, or at one field of a key.
abbrev pub at_key {ℓ} : {A : Type ℓ} → String → A → (String → A) → String → A
at_key k a f j = if str_eq k j then a else f j

abbrev pub at_field {ℓ} :
    {A : Type ℓ} → String → String → A → (String → String → A) → String → String → A
at_field k m a f j n = if both_eq k m j n then a else f j n

abbrev pub with_sets : Store → (String → Entries) → Store
with_sets d f = record { sets = f; texts = d.texts; numbers = d.numbers; values = d.values }

pub find-zadd :
    (d : Store) (k : String) (s : ℕ) (m j n : String)
    → find (at_key k (insert s m (remove m (d.sets k))) d.sets j) n
      ≡ (if both_eq k m j n then some s else find (d.sets j) n)
find-zadd d k s m j n = elim (Bool-cases (str_eq k j)) [
  | inl e ↦
      let same : d.sets k ≡ d.sets j = ap d.sets ((eq_iff k j).0 e) in
      let gone : find (remove m (d.sets j)) m ≡ none = find-remove m (d.sets j) m ∙ rw eq_refl in
      rw (e, same)
        (find-insert s m (remove m (d.sets j)) n gone
          ∙ rw (find-remove m (d.sets j) n) (ground arith))
  | inr e ↦ rw e
]

pub find-zrem :
    (d : Store) (k m j n : String)
    → find (at_key k (remove m (d.sets k)) d.sets j) n
      ≡ (if both_eq k m j n then none else find (d.sets j) n)
find-zrem d k m j n = elim (Bool-cases (str_eq k j)) [
  | inl e ↦
      let same : d.sets k ≡ d.sets j = ap d.sets ((eq_iff k j).0 e) in
      rw (e, same) (find-remove m (d.sets j) n)
  | inr e ↦ rw e
]

pub length-zrem_up_to :
    (d : Store) (k : String) (top : ℕ) (j : String)
    → length (at_key k (remove_up_to top (d.sets k)) d.sets j) ≤ length (d.sets j)
length-zrem_up_to d k top j = elim (Bool-cases (str_eq k j)) [
  | inl e ↦
      let same : d.sets k ≡ d.sets j = ap d.sets ((eq_iff k j).0 e) in
      rw (e, same) (length-remove_up_to top (d.sets j))
  | inr e ↦ rw e (omega arith)
]

abbrev pub in_memory_sorted : Leases
in_memory_sorted = record {
  Db = Store;
  score = λ d k n. find (d.sets k) n;
  zcard = λ d k. length (d.sets k);
  zrange = λ d k n. map (λ (s, m). m) (take n (d.sets k));
  hget = λ d. d.texts;
  hget_number = λ d. d.numbers;
  value = λ d. d.values;
  zadd = λ d k s m. with_sets d (at_key k (insert s m (remove m (d.sets k))) d.sets);
  zrem = λ d k m. with_sets d (at_key k (remove m (d.sets k)) d.sets);
  zrem_up_to = λ d k top. with_sets d (at_key k (remove_up_to top (d.sets k)) d.sets);
  hset = λ d k f v. record {
    sets = d.sets;
    texts = at_field k f (some v) d.texts;
    numbers = d.numbers;
    values = d.values;
  };
  hset_number = λ d k f v. record {
    sets = d.sets;
    texts = d.texts;
    numbers = at_field k f (some v) d.numbers;
    values = d.values;
  };
  hdel = λ d k f. record {
    sets = d.sets;
    texts = at_field k f none d.texts;
    numbers = at_field k f none d.numbers;
    values = d.values;
  };
  set = λ d k v ttl. record {
    sets = d.sets;
    texts = d.texts;
    numbers = d.numbers;
    values = at_key k (some v) d.values;
  };
  del = λ d k. record {
    sets = d.sets;
    texts = d.texts;
    numbers = d.numbers;
    values = at_key k none d.values;
  };
  expire = λ d k t. d;
  score-zadd = find-zadd;
  score-zrem = find-zrem;
  score-zrem_up_to_kept =
      λ d k top n s h later. rw (eq_refl) (find-remove_up_to top (d.sets k) n s h later);
  score-zrem_up_to_other = λ d k top j n other. rw other;
  score-hset = λ d k f v j n. refl;
  score-hset_number = λ d k f v j n. refl;
  score-hdel = λ d k f j n. refl;
  score-set = λ d k v ttl j n. refl;
  score-del = λ d k j n. refl;
  score-expire = λ d k t j n h. refl;
  zcard-zadd = λ d k s m.
      rw eq_refl
        (omega (arith, length-insert s m (remove m (d.sets k)), length-remove m (d.sets k)));
  zcard-zadd_other = λ d k s m j other. rw other;
  zcard-zrem = λ d k m j other. rw other;
  zcard-hset = λ d k f v j. refl;
  zcard-hdel = λ d k f j. refl;
  zcard-set = λ d k v ttl j. refl;
  zcard-expire = λ d k t j h. refl;
  hget-hset = λ d k f v j g. refl;
  hget-hset_number = λ d k f v j g. refl;
  hget-hdel = λ d k f j g. refl;
  hget-zrem = λ d k m j g. refl;
  hget-zrem_up_to = λ d k top j g. refl;
  hget_number-hdel = λ d k f j g. refl;
  hget_number-zrem = λ d k m j g. refl;
  hget_number-zrem_up_to = λ d k top j g. refl;
  zcard-zrem_up_to = length-zrem_up_to;
  zrange-zrem_up_to = λ d k top j n other. rw other;
  value-zadd = λ d k s m j. refl;
  value-zrem = λ d k m j. refl;
  value-zrem_up_to = λ d k top j. refl;
  value-hset = λ d k f v j. refl;
  value-hdel = λ d k f j. refl;
  value-expire = λ d k t j h. refl;
  value-set = λ d k v ttl j h. refl;
  value-del = λ d k j. refl;
}

-- Nothing stored.
abbrev pub empty_sorted : Store
empty_sorted = record {
  sets = λ k. [];
  texts = λ k f. none;
  numbers = λ k f. none;
  values = λ k. none;
}

-- ===== src/Mercury/Queries/Places.antt =====
-- The places of a query are the numbers from 1 on, one for each parameter, and each parameter has
-- the type of its kind.
use zephyr_vm.Prelude.{
  ℕ, ◌+◌, ◌≡◌, refl, sym, ap, ◌∙◌, ⊤, Bool, true, false, Option, none, some, String, List, [], ◌∷◌,
  ◌++◌, length, length-append, map, append-nil, arith,
}
use zephyr_vm.Errors.{Result, ok, err, panic, DatabaseError}
use zephyr_vm.Exec.{continue, lift, ok_or, ◌>>=◌}
use zephyr_vm.Mercury.{
  Word, sql, name, table, place, PgType, int8, bytea, WriteParam, bytes, integer, Postgres, Built,
  Building, push_str, push_param, unless_last, indexed, bound_as, bound_param, native_of,
}
use zephyr_vm.Mercury.Queries.{expected}

-- The places of a query, in order.
unfoldable pub places : List Word → List ℕ
places [] = []
places (place n ∷ ws) = n ∷ places ws
places (sql s ∷ ws) = places ws
places (name c ∷ ws) = places ws
places (table h ∷ ws) = places ws

-- The numbers from `n + 1` on, one for each element.
unfoldable pub numbered : {A : Type 0} → ℕ → List A → List ℕ
numbered n [] = []
numbered n (x ∷ xs) = (n + 1) ∷ numbered (n + 1) xs

abbrev pub type_of : WriteParam → PgType
type_of (bytes b) = bytea
type_of (integer n) = int8

-- As many places as parameters, numbered from 1 on, and types that fit the parameters.
abbrev pub Bound : Built → Type 0
Bound b = (places b.query ≡ numbered 0 b.owned_params) × (b.types ≡ map type_of b.owned_params)

-- What holds of the state that a computation leaves, if it ends well.
abbrev pub After : {A : Type 0} → (Built → Type 0) → Result A DatabaseError × Built → Type 0
After Q (ok a, b) = Q b
After Q (err e, b) = ⊤
After Q (panic, b) = ⊤

pub record Leads {A : Type 0} (Q R : Built → Type 0) (m : Building A) : Type 0 where
  pub at : (b : Built) → Q b → After R (m b)

continue-After :
    {A B : Type 0} {Q R : Built → Type 0} (r : Result A DatabaseError) (f : A → Building B)
    (b : Built)
    → After Q (r, b)
    → ((a : A) → Leads Q R (f a))
    → After R (continue r f b)
continue-After (ok a) f b q next = (next a).at b q
continue-After (err e) f b q next = tt
continue-After panic f b q next = tt

pub Leads-bind :
    {A B : Type 0} {Q R S : Built → Type 0} (m : Building A) (f : A → Building B)
    → Leads Q R m
    → ((a : A) → Leads R S (f a))
    → Leads Q S (m >>= f)
unfolding ◌>>=◌
Leads-bind m f first next = record {
  at = λ b q. continue-After (m b).0 f (m b).1 (first.at b q) next;
}

pub places-append : (xs ys : List Word) → places (xs ++ ys) ≡ places xs ++ places ys
unfolding places
places-append [] ys = refl
places-append (place n ∷ xs) ys = ap (λ (l : List ℕ). n ∷ l) (places-append xs ys)
places-append (sql s ∷ xs) ys = places-append xs ys
places-append (name c ∷ xs) ys = places-append xs ys
places-append (table h ∷ xs) ys = places-append xs ys

pub numbered-append :
    {A : Type 0} (n : ℕ) (xs : List A) (x : A)
    → numbered n (xs ++ (x ∷ [])) ≡ numbered n xs ++ ((n + length xs + 1) ∷ [])
unfolding numbered
numbered-append n [] x = ap (λ (k : ℕ). k ∷ []) (omega arith)
numbered-append n (y ∷ xs) x =
    ap (λ (l : List ℕ). (n + 1) ∷ l)
      (numbered-append (n + 1) xs x ∙ ap (λ (k : ℕ). numbered (n + 1) xs ++ (k ∷ [])) (omega arith))

map-snoc :
    (ps : List WriteParam) (p : WriteParam)
    → map type_of (ps ++ (p ∷ [])) ≡ map type_of ps ++ (type_of p ∷ [])
map-snoc [] p = refl
map-snoc (q ∷ ps) p = ap (λ (l : List PgType). type_of q ∷ l) (map-snoc ps p)

-- So many parameters, of these places.
pub record Stage (ks : (List WriteParam → List ℕ)) (n : ℕ) (b : Built) : Type 0 where
  pub placed : places b.query ≡ ks b.owned_params
  pub typed : b.types ≡ map type_of b.owned_params
  pub count : length b.owned_params ≡ n

-- A place for each parameter; one more, whose parameter is to come; and none.
abbrev pub level : List WriteParam → List ℕ
level ps = numbered 0 ps

abbrev pub ahead : List WriteParam → List ℕ
ahead ps = numbered 0 ps ++ ((length ps + 1) ∷ [])

abbrev pub unplaced : List WriteParam → List ℕ
unplaced ps = []

module _ {ks : List WriteParam → List ℕ} (n : ℕ) where
  pub Leads-sql : (s : String) → Leads (Stage ks n) (Stage ks n) (push_str (sql s))
  unfolding places
  Leads-sql s = record {
    at = λ b q. record {
      placed = places-append b.query (sql s ∷ []) ∙ append-nil (places b.query) ∙ q.placed;
      typed = q.typed;
      count = q.count;
    };
  }

  pub Leads-name : (c : List ℕ) → Leads (Stage ks n) (Stage ks n) (push_str (name c))
  unfolding places
  Leads-name c = record {
    at = λ b q. record {
      placed = places-append b.query (name c ∷ []) ∙ append-nil (places b.query) ∙ q.placed;
      typed = q.typed;
      count = q.count;
    };
  }

  pub Leads-table : (h : List ℕ) → Leads (Stage ks n) (Stage ks n) (push_str (table h))
  unfolding places
  Leads-table h = record {
    at = λ b q. record {
      placed = places-append b.query (table h ∷ []) ∙ append-nil (places b.query) ∙ q.placed;
      typed = q.typed;
      count = q.count;
    };
  }

  pub Leads-unless_last :
      {A : Type 0} (xs : List A) (s : String) → Leads (Stage ks n) (Stage ks n) (unless_last xs s)
  unfolding unless_last
  Leads-unless_last [] s = record { at = λ b q. q }
  Leads-unless_last (x ∷ xs) s = Leads-sql s

module _ {Q : Built → Type 0} where
  pub Leads-lift : {A : Type 0} (r : Result A DatabaseError) → Leads Q Q (lift r)
  Leads-lift (ok a) = record { at = λ b q. q }
  Leads-lift (err e) = record { at = λ b q. tt }
  Leads-lift panic = record { at = λ b q. tt }

  pub Leads-indexed : (bs : List (List ℕ)) → Leads Q Q (indexed bs)
  Leads-indexed [] = record { at = λ b q. tt }
  Leads-indexed (b ∷ bs) = record { at = λ b q. q }

  pub Leads-expected : {A : Type 0} (o : Option A) → Leads Q Q (expected o)
  Leads-expected none = record { at = λ b q. tt }
  Leads-expected (some a) = record { at = λ b q. q }

  pub Leads-ok_or : {A : Type 0} (o : Option A) (e : DatabaseError) → Leads Q Q (ok_or o e)
  Leads-ok_or none e = record { at = λ b q. tt }
  Leads-ok_or (some a) e = record { at = λ b q. q }

pub Leads-place : (n : ℕ) → Leads (Stage level n) (Stage ahead n) (push_str (place (n + 1)))
unfolding places
Leads-place n = record {
  at = λ b q. record {
    placed =
        places-append b.query (place (n + 1) ∷ [])
        ∙ ap (λ (l : List ℕ). l ++ ((n + 1) ∷ [])) q.placed
        ∙ ap (λ (k : ℕ). numbered 0 b.owned_params ++ ((k + 1) ∷ [])) (sym q.count);
    typed = q.typed;
    count = q.count;
  };
}

-- How a parameter that is pushed moves the stage.
pub record Takes (ks ks' : List WriteParam → List ℕ) : Type 0 where
  pub takes : (ps : List WriteParam) (p : WriteParam) → ks' (ps ++ (p ∷ [])) ≡ ks ps

pub Takes-ahead : Takes ahead level
Takes-ahead = record {
  takes = λ ps p. numbered-append 0 ps p ∙ ap (λ (k : ℕ). numbered 0 ps ++ (k ∷ [])) (omega arith);
}

pub Takes-unplaced : Takes unplaced unplaced
Takes-unplaced = record { takes = λ ps p. refl }

module _ {ks ks' : List WriteParam → List ℕ} (t : Takes ks ks') (n : ℕ) where
  Leads-push_param :
      (p : WriteParam) → Leads (Stage ks n) (Stage ks' (n + 1)) (push_param p (type_of p))
  Leads-push_param p = record {
    at = λ b q. record {
      placed = q.placed ∙ sym (t.takes b.owned_params p);
      typed =
          ap (λ (l : List PgType). l ++ (type_of p ∷ [])) q.typed ∙ sym (map-snoc b.owned_params p);
      count = length-append b.owned_params (p ∷ []) ∙ ap (λ (k : ℕ). k + 1) q.count;
    };
  }

  Leads-bound_as :
      (pg : Postgres) (big : Bool) (raw : List ℕ)
      → Leads (Stage ks n) (Stage ks' (n + 1)) (bound_as pg big raw)
  unfolding bound_as
  Leads-bound_as pg true raw =
      Leads-bind _ _ (Leads-lift (native_of pg raw)) λ native. Leads-push_param (integer native)
  Leads-bound_as pg false raw = Leads-push_param (bytes raw)

  pub Leads-bound_param :
      (pg : Postgres) (col_type raw : List ℕ)
      → Leads (Stage ks n) (Stage ks' (n + 1)) (bound_param pg col_type raw)
  unfolding bound_param
  Leads-bound_param pg col_type raw = Leads-bound_as pg _ raw

-- ===== src/Selfupdate/Keeps.antt =====
-- What package os documents of files, and triples over the contents of the files: what holds of them
-- behind an action that succeeds, and behind one that fails.
use lazyswap.Prelude.{
  Bool, Option, ap, false, if◌then◌else◌, none, refl, some, subst, sym, true, ℕ, ◌≡◌, ◌≢◌,
}
use lazyswap.Prelude.Result.{Result, err, ok}
use lazyswap.Prelude.Text.{Bytes}
use lazyswap.Selfupdate.Machine.{
  Machine, Op, OsError, UpdateError, call, finally, lift, on_error, pure, with_error, ◌>>=◌,
}

-- the content of each path, `none` where there is no file
abbrev pub View : Type 0
View = Bytes → Option Bytes

-- What package os documents. A failed write leaves any content in its own file; requests, reads and
-- the change of a mode leave all contents alone; the path of a temporary file was free.
pub record IsFileSystem (m : Machine) (view : m.State → View) : Type 0 where
  pub http_quiet : (url : Bytes) (s : m.State) → view (m.http_get url s).1 ≡ view s
  pub read_quiet : (q : Bytes) (s : m.State) → view (m.read_file q s).1 ≡ view s
  pub chmod_quiet : (q : Bytes) (mode : ℕ) (s : m.State) → view (m.chmod_file q mode s).1 ≡ view s
  pub close_quiet : (q : Bytes) (s : m.State) → view (m.close_file q s).1 ≡ view s
  pub read_content : (q c : Bytes) (s : m.State) → (m.read_file q s).0 ≡ ok c → view s q ≡ some c
  pub create_free :
      (dir pattern q : Bytes) (s : m.State)
      → (m.create_temp dir pattern s).0 ≡ ok q
      → view s q ≡ none
  pub create_others :
      (dir pattern p c : Bytes) (s : m.State)
      → view s p ≡ some c
      → view (m.create_temp dir pattern s).1 p ≡ some c
  pub write_others :
      (q c p : Bytes) (s : m.State) → p ≢ q → view (m.write_file q c s).1 p ≡ view s p
  pub write_content :
      (q c : Bytes) (s : m.State)
      → (m.write_file q c s).0 ≡ ok tt
      → view (m.write_file q c s).1 q ≡ some c
  pub remove_others : (q p : Bytes) (s : m.State) → p ≢ q → view (m.remove_file q s).1 p ≡ view s p
  pub rename_failed :
      (a b : Bytes) (e : OsError) (s : m.State)
      → (m.rename_file a b s).0 ≡ err e
      → view (m.rename_file a b s).1 ≡ view s
  pub rename_moves :
      (a b : Bytes) (s : m.State)
      → (m.rename_file a b s).0 ≡ ok tt
      → view (m.rename_file a b s).1 b ≡ view s a
  pub rename_others :
      (a b p : Bytes) (s : m.State) → p ≢ a → p ≢ b → view (m.rename_file a b s).1 p ≡ view s p

module _ {S : Type 0} (view : S → View) where
  abbrev pub Ends : {X A : Type 0} → (A → View → Type 0) → (View → Type 0) → Result X A × S → Type 0
  Ends Q E (ok a, s) = Q a (view s)
  Ends Q E (err e, s) = E (view s)

  -- From contents that satisfy `P`, the action ends with `Q` of its result, or fails with `E`.
  pub record Keeps {A : Type 0} (P : View → Type 0) (op : Op S A) (Q : A → View → Type 0)
      (E : View → Type 0) : Type 0 where
    pub at : (s : S) → P (view s) → Ends Q E (op s)

  module _ {A : Type 0} {P E : View → Type 0} where
    pub Keeps-pure :
        {Q : A → View → Type 0} (a : A) → ((v : View) → P v → Q a v) → Keeps P (pure a) Q E
    unfolding pure
    Keeps-pure a h = record { at = λ s p. h (view s) p }

    pub Keeps-lift :
        (r : Result UpdateError A)
        → ((v : View) → P v → E v)
        → Keeps P (lift r) (λ a v. (r ≡ ok a) × P v) E
    unfolding lift
    Keeps-lift (ok a) h = record { at = λ s p. (refl, p) }
    Keeps-lift (err e) h = record { at = λ s p. h (view s) p }

    -- an action that leaves all contents alone
    pub Keeps-quiet :
        (op : Op S A)
        → ((s : S) → view (op s).1 ≡ view s)
        → ((v : View) → P v → E v)
        → Keeps P op (λ _ v. P v) E
    Keeps-quiet op quiet h = record { at = λ s p. ended s (op s) (quiet s) p }
      where
        ended :
            (s : S) (r : Result UpdateError A × S)
            → view r.1 ≡ view s
            → P (view s)
            → Ends {X = UpdateError} (λ (_ : A) v. P v) E r
        ended s (ok a, t) same p = subst P (sym same) p
        ended s (err e, t) same p = h (view t) (subst P (sym same) p)

    pub Keeps-call :
        {X : Type 0} {Q : A → View → Type 0} (label : X → UpdateError) (f : S → Result X A × S)
        → ((s : S) → P (view s) → Ends Q E (f s))
        → Keeps P (call f >>= λ r. lift (with_error label r)) Q E
    unfolding call ◌>>=◌ lift
    Keeps-call {X} {Q} label f h = record { at = λ s p. ended (f s) (h s p) }
      where
        ended :
            (r : Result X A × S)
            → Ends Q E r
            → Ends Q E ((call (λ _. r) >>= λ x. lift (with_error label x)) r.1)
        ended (ok a, t) q = q
        ended (err e, t) q = q

  module _ {A B : Type 0} {P E : View → Type 0} {Q : A → View → Type 0} where
    pub Keeps-bind :
        {R : B → View → Type 0} (op : Op S A) (f : A → Op S B)
        → Keeps P op Q E
        → ((a : A) → ((s : S) × ((op s).0 ≡ ok a)) → Keeps (Q a) (f a) R E)
        → Keeps P (op >>= f) R E
    unfolding ◌>>=◌
    Keeps-bind {R} op f k kf = record { at = λ s p. continued s (op s) refl (k.at s p) }
      where
        continued :
            (s : S) (r : Result UpdateError A × S)
            → op s ≡ r
            → Ends Q E r
            → Ends R E (((λ _. r) >>= f) s)
        continued s (ok a, t) e q = (kf a (s, ap (λ x. x.0) e)).at t q
        continued s (err x, t) e q = q

    pub Keeps-on_error :
        (op : Op S A) (undo : Op S B)
        → Keeps P op Q E
        → ((s : S) → E (view s) → E (view (undo s).1))
        → Keeps P (on_error op undo) Q E
    unfolding on_error
    Keeps-on_error op undo k undone = record { at = λ s p. ended (op s) (k.at s p) }
      where
        ended : (r : Result UpdateError A × S) → Ends Q E r → Ends Q E (on_error (λ _. r) undo r.1)
        ended (ok a, t) q = q
        ended (err e, t) q = undone t q

    pub Keeps-finally :
        {Q' : A → View → Type 0} (op : Op S A) (last : Op S B)
        → Keeps P op Q E
        → ((a : A) (s : S) → Q a (view s) → Q' a (view (last s).1))
        → ((s : S) → E (view s) → E (view (last s).1))
        → Keeps P (finally op last) Q' E
    unfolding finally
    Keeps-finally {Q'} op last k done failed_too = record { at = λ s p. ended (op s) (k.at s p) }
      where
        ended : (r : Result UpdateError A × S) → Ends Q E r → Ends Q' E (finally (λ _. r) last r.1)
        ended (ok a, t) q = done a t q
        ended (err e, t) q = failed_too t q

  module _ {A : Type 0} {P E : View → Type 0} {Q : A → View → Type 0} where
    -- a weaker start
    pub Keeps-after :
        {P' : View → Type 0} {op : Op S A}
        → ((v : View) → P' v → P v)
        → Keeps P op Q E
        → Keeps P' op Q E
    Keeps-after h k = record { at = λ s p. k.at s (h (view s) p) }

    -- a weaker failure
    pub Keeps-or :
        {E' : View → Type 0} {op : Op S A}
        → ((v : View) → E v → E' v)
        → Keeps P op Q E
        → Keeps P op Q E'
    Keeps-or {E'} {op} h k = record { at = λ s p. ended (op s) (k.at s p) }
      where
        ended : (r : Result UpdateError A × S) → Ends Q E r → Ends Q E' r
        ended (ok a, t) q = q
        ended (err e, t) q = h (view t) q

    -- a fact about no contents, taken out of the start
    pub Keeps-with : {X : Type 0} {op : Op S A} → (X → Keeps P op Q E) → Keeps (λ v. P v × X) op Q E
    Keeps-with k = record { at = λ s p. (k p.1).at s p.0 }

    pub Keeps-given :
        {X : Type 0} {op : Op S A} → (X → Keeps P op Q E) → Keeps (λ v. X × P v) op Q E
    Keeps-given k = record { at = λ s p. (k p.0).at s p.1 }

    -- a weaker end
    pub Keeps-so :
        {Q' : A → View → Type 0} {op : Op S A}
        → ((a : A) (v : View) → Q a v → Q' a v)
        → Keeps P op Q E
        → Keeps P op Q' E
    Keeps-so {Q'} {op} h k = record { at = λ s p. ended (op s) (k.at s p) }
      where
        ended : (r : Result UpdateError A × S) → Ends Q E r → Ends Q' E r
        ended (ok a, t) q = h a (view t) q
        ended (err e, t) q = q

    pub Keeps-if :
        (b : Bool) (x y : Op S A)
        → (b ≡ true → Keeps P x Q E)
        → (b ≡ false → Keeps P y Q E)
        → Keeps P (if b then x else y) Q E
    Keeps-if true x y kx ky = kx refl
    Keeps-if false x y kx ky = ky refl

    pub Keeps-fail : (e : UpdateError) → ((v : View) → P v → E v) → Keeps P (lift (err e)) Q E
    unfolding lift
    Keeps-fail e h = record { at = λ s p. h (view s) p }

  module _ {A X : Type 0} {E : View → Type 0} {P : X → View → Type 0} {Q : A → View → Type 0} where
    -- a value that the start knows of
    pub Keeps-for :
        {op : Op S A} → ((x : X) → Keeps (P x) op Q E) → Keeps (λ v. (x : X) × P x v) op Q E
    Keeps-for k = record { at = λ s p. (k p.0).at s p.1 }

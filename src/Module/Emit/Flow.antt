-- ===== src/Module/Emit/Flow.antt =====
-- Code that goes straight on in the block in which the builder stands.
use wembed.Base.{ℕ, ◌≡◌, refl, sym, ◌∙◌, ap, subst, true, List, [], ◌∷◌, ◌++◌, ◌>>=◌, All, return}
use wembed.Base.Runs.{Runs, Runs-bind, Runs-return}
use wembed.Llvm.{Llvm}
use wembed.Llvm.Flow.{FlowLaws, Event, built, exit_of}
use wembed.Llvm.Instructions.{Instr, binary, cast, icmp}
use wembed.Module.{Module, M, build}

pub append_assoc : {A : Type 0} (xs ys zs : List A) → (xs ++ ys) ++ zs ≡ xs ++ (ys ++ zs)
append_assoc [] ys zs = refl
append_assoc (x ∷ xs) ys zs = ap (λ ws. x ∷ ws) (append_assoc xs ys zs)

append_nil : {A : Type 0} (xs : List A) → xs ≡ xs ++ []
append_nil [] = refl
append_nil (x ∷ xs) = ap (λ ws. x ∷ ws) (append_nil xs)

All-append : {A : Type 0} (P : A → Type 0) (xs ys : List A) → All P xs → All P ys → All P (xs ++ ys)
All-append P [] ys h k = k
All-append P (x ∷ xs) ys (g, h) k = (g, All-append P xs ys h k)

-- An instruction behind which control goes on.
abbrev pub IsPlain : {V B : Type 0} → Event V B → Type 0
IsPlain (built (binary op x y)) = Unit {0}
IsPlain (built (cast op v t)) = Unit {0}
IsPlain (built (icmp p x y)) = Unit {0}
IsPlain e = ⊥

pub exit_of-plain :
    {V B : Type 0} (bits : V → ℕ) (es xs : List (Event V B))
    → All IsPlain es
    → exit_of bits (es ++ xs) ≡ exit_of bits xs
unfolding exit_of
exit_of-plain bits [] xs h = refl
exit_of-plain bits (built (binary op x y) ∷ es) xs (p, h) = exit_of-plain bits es xs h
exit_of-plain bits (built (cast op v t) ∷ es) xs (p, h) = exit_of-plain bits es xs h
exit_of-plain bits (built (icmp op x y) ∷ es) xs (p, h) = exit_of-plain bits es xs h
exit_of-plain bits (e ∷ es) xs (p, h) = absurd p

module _ ⦃L : Llvm⦄ (F : FlowLaws L) where
  abbrev pub place : Module L → L.Block
  place m = L.insert_block m.builder

  -- The builder stands in one of the blocks.
  abbrev pub IsPlaced : Module L → Type 0
  IsPlaced m = F.known m.builder (place m) ≡ true

  abbrev pub contents : Module L → L.Block → List (Event L.Value L.Block)
  contents m k = F.code m.builder k

  -- From `m` to `n` the code goes straight on in the same block.
  pub record Straight (m n : Module L) : Type 0 where
    pub same_place : place n ≡ place m
    pub placed : IsPlaced n
    pub added : List (Event L.Value L.Block)
    pub longer : contents n (place m) ≡ contents m (place m) ++ added
    pub plain : All IsPlain added

  pub Straight-refl : (m : Module L) → IsPlaced m → Straight m m
  Straight-refl m h = record {
    same_place = refl;
    placed = h;
    added = [];
    longer = append_nil (contents m (place m));
    plain = tt;
  }

  pub Straight-trans : (m n o : Module L) → Straight m n → Straight n o → Straight m o
  Straight-trans m n o p q = record {
    same_place = q.same_place ∙ p.same_place;
    placed = q.placed;
    added = p.added ++ q.added;
    longer =
        subst (λ k. contents o k ≡ contents n k ++ q.added) p.same_place q.longer
        ∙ ap (λ es. es ++ q.added) p.longer
        ∙ append_assoc (contents m (place m)) p.added q.added;
    plain = All-append IsPlain p.added q.added p.plain q.plain;
  }

  -- Code that goes straight on from a placed builder.
  abbrev Follows : Module L → Module L → Type 0
  Follows m n = IsPlaced m → Straight m n

  abbrev pub GoesStraight : {A : Type 0} → M A → Type 0
  GoesStraight c = Runs Follows c

  pub then_ :
      {A B : Type 0} {p : M A} {g : A → M B}
      → GoesStraight p
      → ((a : A) → GoesStraight (g a))
      → GoesStraight (p >>= g)
  then_ h k =
      Runs-bind (λ m n o p q placed. Straight-trans m n o (p placed) (q (p placed).placed)) h k

  pub return-GoesStraight : {A : Type 0} (a : A) → GoesStraight (return {S = Module L} a)
  return-GoesStraight a = Runs-return Straight-refl a

  pub build-GoesStraight :
      (i : Instr L.Value L.Block)
      → IsPlain {V = L.Value} {B = L.Block} (built i)
      → GoesStraight (build i)
  unfolding build
  build-GoesStraight i h = record {
    at = λ m placed.
        let same = F.insert_block-build i m.builder in
        record {
          same_place = same;
          placed =
              F.known-build i m.builder _
              ∙ subst (λ k. F.known m.builder k ≡ true) (sym same) placed;
          added = built i ∷ [];
          longer = F.code-build i m.builder placed;
          plain = (h, tt);
        };
  }

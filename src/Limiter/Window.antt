-- ===== src/Limiter/Window.antt =====
-- btcsoq/api.ts and btcsoq/theater.ts: no window lets through more requests of a key than its limit.
use soqtec.Base.{
  ℕ, suc, ◌+◌, ◌-◌, ◌≤◌, ◌<◌, ◌≡◌, refl, sym, ap, ◌∙◌, subst, ◌≢◌, Bool, true, false, ◌&&◌, List,
  [], ◌∷◌, ◌++◌, Text, Dict, lookup, insert, lookup-insert_self, lookup-insert_ne, arith, ltb, leb,
  ◌===◌, ===_iff, if◌then◌else◌, length, length-append, leb→le, Bool-cases, inl, inr,
}
use soqtec.Limiter.{hits_of, recent, admit, Request, admit_key, admitted}

-- The requests come in the order of their times.
abbrev pub IsOrdered : ℕ → List Request → Type 0
IsOrdered last [] = Unit {0}
IsOrdered last ((key, now) ∷ requests) = (last ≤ now) × IsOrdered now requests

-- The time lies in the window that ends at `end`.
abbrev pub within : ℕ → ℕ → ℕ → Bool
within window end t = leb t end && ltb (end - t) window

abbrev pub count_in : ℕ → ℕ → List ℕ → ℕ
count_in window end [] = 0
count_in window end (t ∷ ts) =
    let rest = count_in window end ts in if within window end t then suc rest else rest

module _ (window : ℕ) where
  count_in-append :
      (end : ℕ) (xs ys : List ℕ)
      → count_in window end (xs ++ ys) ≡ count_in window end xs + count_in window end ys
  count_in-append end [] ys = omega arith
  count_in-append end (x ∷ xs) ys = let rest = count_in-append end xs ys in grind arith

  count_in-length : (end : ℕ) (xs : List ℕ) → count_in window end xs ≤ length xs
  count_in-length end [] = omega arith
  count_in-length end (x ∷ xs) = let rest = count_in-length end xs in grind arith

  -- What `recent` drops lies in no later window.
  count_in-recent :
      (end now : ℕ) (hits : List ℕ)
      → now ≤ end
      → count_in window end (recent window now hits) ≡ count_in window end hits
  unfolding recent
  count_in-recent end now [] h = refl
  count_in-recent end now (t ∷ hits) h = let rest = count_in-recent end now hits h in grind arith

  pub length-recent_le : (now : ℕ) (hits : List ℕ) → length (recent window now hits) ≤ length hits
  unfolding recent
  length-recent_le now [] = omega arith
  length-recent_le now (t ∷ hits) = let rest = length-recent_le now hits in grind arith

  -- The kept times stand for all that were let through, in every window that ends now or later.
  record IsLimited (max last : ℕ) (hits passed : List ℕ) : Type 0 where
    bounded : length hits ≤ max
    agrees : (end : ℕ) → last ≤ end → count_in window end passed ≡ count_in window end hits
    limited : (end : ℕ) → count_in window end passed ≤ max

  refused :
      (max last now : ℕ) (hits passed : List ℕ)
      → last ≤ now
      → IsLimited max last hits passed
      → IsLimited max now (recent window now hits) passed
  refused max last now hits passed h inv = record {
    bounded = let a = inv.bounded in let b = length-recent_le now hits in omega arith;
    agrees = λ end later. inv.agrees end (omega arith) ∙ sym (count_in-recent end now hits later);
    limited = inv.limited;
  }

  let_through :
      (max last now : ℕ) (hits passed : List ℕ)
      → last ≤ now
      → length (recent window now hits) < max
      → IsLimited max last hits passed
      → IsLimited max now (recent window now hits ++ (now ∷ [])) (now ∷ passed)
  let_through max last now hits passed h room inv =
      let kept = recent window now hits in
      let added = length-append kept (now ∷ []) in
      let full : length (kept ++ (now ∷ [])) ≤ max = omega arith in
      let same : (end : ℕ)
          → now ≤ end
          → count_in window end (now ∷ passed) ≡ count_in window end (kept ++ (now ∷ [])) =
        λ end later.
          let a = inv.agrees end (omega arith) in
          let b = count_in-recent end now hits later in
          let c = count_in-append end kept (now ∷ []) in grind arith in
      record {
        bounded = full;
        agrees = same;
        limited = λ end. elim (Bool-cases (leb now end)) [
          | inl later ↦
              let a = same end (leb→le now end later) in
              let b = count_in-length end (kept ++ (now ∷ [])) in omega arith
          | inr before ↦ let a = inv.limited end in grind arith
        ];
      }

  admit-IsLimited :
      (max last now : ℕ) (hits passed : List ℕ)
      → last ≤ now
      → IsLimited max last hits passed
      → let (through, hits') = admit window max now hits in
        IsLimited max now hits' (if through then now ∷ passed else passed)
  unfolding admit
  admit-IsLimited max last now hits passed h inv =
      elim (Bool-cases (leb max (length (recent window now hits)))) [
        | inl full ↦ rw full (refused max last now hits passed h inv)
        | inr room ↦ rw room (let_through max last now hits passed h (grind arith) inv)
      ]

  later_on :
      (max last now : ℕ) (hits passed : List ℕ)
      → last ≤ now
      → IsLimited max last hits passed
      → IsLimited max now hits passed
  later_on max last now hits passed h inv = record {
    bounded = inv.bounded;
    agrees = λ end later. inv.agrees end (omega arith);
    limited = inv.limited;
  }

  pub hits_of-insert_self :
      (key : Text) (hits : List ℕ) (d : Dict (List ℕ)) → hits_of key (insert key hits d) ≡ hits
  hits_of-insert_self key hits d = rw (hits_of, lookup-insert_self key hits d) refl

  hits_of-insert_ne :
      (k key : Text) (hits : List ℕ) (d : Dict (List ℕ))
      → k ≢ key
      → hits_of key (insert k hits d) ≡ hits_of key d
  hits_of-insert_ne k key hits d h = rw (hits_of, lookup-insert_ne k key hits d h) refl

  -- The times that are counted after one request.
  abbrev passed_after : Bool → ℕ → List ℕ → List ℕ
  passed_after through now passed = if through then now ∷ passed else passed

  count_in-passed_after :
      (end : ℕ) (through : Bool) (now : ℕ) (rest passed : List ℕ)
      → count_in window end (if through then now ∷ rest else rest) + count_in window end passed
        ≡ count_in window end rest + count_in window end (passed_after through now passed)
  count_in-passed_after end true now rest passed = grind arith
  count_in-passed_after end false now rest passed = refl

  admit_key-IsLimited :
      (max last now : ℕ) (k key : Text) (d : Dict (List ℕ)) (passed : List ℕ)
      → last ≤ now
      → IsLimited max last (hits_of key d) passed
      → let (through, hits) = admit window max now (hits_of k d) in
        IsLimited max now
          (hits_of key (insert k hits d))
          (passed_after (through && (k === key)) now passed)
  admit_key-IsLimited max last now k key d passed h inv =
      let through = (admit window max now (hits_of k d)).0 in
      let hits = (admit window max now (hits_of k d)).1 in
      elim (Bool-cases (k === key)) [
        | inl same ↦
            let is : key ≡ k = sym ((===_iff k key).0 same) in
            let inv' : IsLimited max last (hits_of k d) passed =
              subst (λ j. IsLimited max last (hits_of j d) passed) is inv in
            let step = admit-IsLimited max last now (hits_of k d) passed h inv' in
            let shown : hits ≡ hits_of key (insert k hits d) =
              sym (hits_of-insert_self k hits d) ∙ ap (λ j. hits_of j (insert k hits d)) (sym is) in
            let counted : through ≡ (through && (k === key)) = ground arith in
            subst
              (λ b. IsLimited max now (hits_of key (insert k hits d)) (passed_after b now passed))
              counted
              (subst (λ hs. IsLimited max now hs (passed_after through now passed)) shown step)
        | inr other ↦
            let shown : hits_of key d ≡ hits_of key (insert k hits d) =
              sym (hits_of-insert_ne k key hits d (λ e. absurd (grind (arith, ===_iff k key)))) in
            let counted : false ≡ (through && (k === key)) = ground arith in
            subst
              (λ b. IsLimited max now (hits_of key (insert k hits d)) (passed_after b now passed))
              counted
              (subst (λ hs. IsLimited max now hs passed) shown
                (later_on max last now (hits_of key d) passed h inv))
      ]

  admitted_after :
      (max last : ℕ) (key : Text) (requests : List Request) (d : Dict (List ℕ)) (passed : List ℕ)
      → IsOrdered last requests
      → IsLimited max last (hits_of key d) passed
      → (end : ℕ)
      → count_in window end (admitted window max key requests d) + count_in window end passed ≤ max
  unfolding admit_key
  admitted_after max last key [] d passed h inv end = let a = inv.limited end in omega arith
  admitted_after max last key ((k, now) ∷ requests) d passed (h, hs) inv end =
      let through = (admit window max now (hits_of k d)).0 in
      let d' = insert k (admit window max now (hits_of k d)).1 d in
      let counted = through && (k === key) in
      let passed' = passed_after counted now passed in
      let rest =
        admitted_after max now key requests d' passed' hs
          (admit_key-IsLimited max last now k key d passed h inv) end in
      let same =
        count_in-passed_after end counted now (admitted window max key requests d') passed in
      omega arith

  -- Of requests that come in the order of their times, no window lets through more than the limit for
  -- any key, whatever the other keys do.
  pub count_in-admitted :
      (max : ℕ) (key : Text) (requests : List Request)
      → IsOrdered 0 requests
      → (end : ℕ) → count_in window end (admitted window max key requests []) ≤ max
  unfolding lookup
  count_in-admitted max key requests h end =
      let inv : IsLimited max 0 [] [] = record {
        bounded = omega arith;
        agrees = λ e l. refl;
        limited = λ e. omega arith;
      } in
      let most = admitted_after max 0 key requests [] [] h inv end in omega arith

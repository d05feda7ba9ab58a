-- ===== src/Cache/Sent.antt =====
-- What emhttp is sent by a change of a share's cache, on every outcome.
use unraid.Map.{Map}
use unraid.Cache.{edit_query, ShareCacheRequest}
use unraid.Text.{Text}
use unraid.Base.{ap, refl, ◌⊎◌, ◌∙◌, ◌≡◌, Result-cases, ◌++◌, List, [], ◌∷◌, inl, inr}
use unraid.Order.{list_ord, nat_ord}
use unraid.Cache.Write.{
  cfg_path, Paths, snapshot, apply_in, emhttp_get, read_csrf, Io, Emhttp, ◌>>=◌,
}

-- The host with a record of the queries that its emhttp was sent.
abbrev pub Logged : Type 0 → Type 0
Logged W = W × List Text

module _ {W : Type 0} where
  abbrev unlogged : {A : Type 0} → Io W A → Io (Logged W) A
  unlogged act s = let (r, w) = act s.0 in (r, (w, s.1))

  abbrev pub logged : Emhttp W → Emhttp (Logged W)
  logged h = record {
    read_to_string = λ path. unlogged (h.read_to_string path);
    read_file = λ path. unlogged (h.read_file path);
    request = λ query s. let (r, w) = h.request query s.0 in (r, (w, s.1 ++ query ∷ []));
  }

  -- Nothing is sent.
  abbrev Silent : {A : Type 0} → Io (Logged W) A → Type 0
  Silent act = (s : Logged W) → (act s).1.1 ≡ s.1

  -- At most one query is sent, and it is one of those.
  abbrev SendsAtMost : {A : Type 0} → (Text → Type 0) → Io (Logged W) A → Type 0
  SendsAtMost P act =
      (s : Logged W)
      → ((act s).1.1 ≡ s.1) ⊎ ((query : Text) × P query × ((act s).1.1 ≡ s.1 ++ query ∷ []))

  Silent-bind :
      {A B : Type 0} (act : Io (Logged W) A) (next : A → Io (Logged W) B)
      → Silent act
      → ((a : A) → Silent (next a))
      → Silent (act >>= next)
  unfolding ◌>>=◌
  Silent-bind act next h k s = elim (Result-cases (act s).0) [
    | inl (a, e) ↦ rw (e, ◌>>=◌) (k a (act s).1 ∙ h s)
    | inr (m, e) ↦ rw (e, ◌>>=◌) (h s)
  ]

  module _ (P : Text → Type 0) where
    SendsAtMost-after :
        {A B : Type 0} (act : Io (Logged W) A) (next : A → Io (Logged W) B)
        → Silent act
        → ((a : A) → SendsAtMost P (next a))
        → SendsAtMost P (act >>= next)
    unfolding ◌>>=◌
    SendsAtMost-after act next h k s = elim (Result-cases (act s).0) [
      | inr (m, e) ↦ inl (rw (e, ◌>>=◌) (h s))
      | inl (a, e) ↦ elim (k a (act s).1) [
        | inl q ↦ inl (rw (e, ◌>>=◌) (q ∙ h s))
        | inr (query, p, q) ↦ inr (query, p, rw (e, ◌>>=◌) (q ∙ ap (λ l. l ++ query ∷ []) (h s)))
      ]
    ]

    SendsAtMost-before :
        {A B : Type 0} (act : Io (Logged W) A) (next : A → Io (Logged W) B)
        → SendsAtMost P act
        → ((a : A) → Silent (next a))
        → SendsAtMost P (act >>= next)
    unfolding ◌>>=◌
    SendsAtMost-before act next h k s = elim (Result-cases (act s).0) [
      | inr (m, e) ↦ rw (e, ◌>>=◌) (h s)
      | inl (a, e) ↦ elim (h s) [
        | inl q ↦ inl (rw (e, ◌>>=◌) (k a (act s).1 ∙ q))
        | inr (query, p, q) ↦ inr (query, p, rw (e, ◌>>=◌) (k a (act s).1 ∙ q))
      ]
    ]

  module _ (h : Emhttp W) where
    Silent-read_csrf : (path : Text) → Silent (read_csrf (logged h) path)
    unfolding read_csrf
    Silent-read_csrf path = Silent-bind _ _ (λ s. refl) (λ text s. refl)

    Silent-snapshot : (path : Text) → Silent (snapshot (logged h) path)
    unfolding snapshot
    Silent-snapshot path = Silent-bind _ _ (λ s. refl) (λ text s. refl)

    emhttp_get-SendsAtMost :
        (P : Text → Type 0) (query : Text) → P query → SendsAtMost P (emhttp_get (logged h) query)
    unfolding emhttp_get
    emhttp_get-SendsAtMost P query p =
        SendsAtMost-before P _ _ (λ s. inr (query, p, refl)) (λ response s. refl)

    change-SendsAtMost :
        (p : Paths) (req : ShareCacheRequest)
        → SendsAtMost
            (λ query.
              (current : Map Text Text) × (csrf : Text) × (query ≡ edit_query current req csrf))
            (apply_in (logged h) p req)
    unfolding apply_in
    change-SendsAtMost p req =
        let path = cfg_path p req in
        SendsAtMost-after _ _ _ (λ s. refl)
          (λ text.
            SendsAtMost-after _ _ _ (λ s. refl)
              (λ current. SendsAtMost-after _ _ _ (Silent-read_csrf p.var_ini) (λ csrf.
                SendsAtMost-after _ _ _ (Silent-snapshot path) (λ before.
                  SendsAtMost-before _ _ _
                    (emhttp_get-SendsAtMost _ (edit_query current req csrf) (current, csrf, refl))
                    (λ _.
                      Silent-bind _ _ (Silent-snapshot path)
                        (λ after. Silent-bind _ _ (λ s. refl) (λ _ s. refl)))))))

    -- Whatever a change of a share's cache comes to, emhttp is sent nothing by it, or one query,
    -- which is that of the form for the request.
    pub apply_in-one_query :
        (p : Paths) (req : ShareCacheRequest) (w : W) (queries : List Text)
        → ((apply_in (logged h) p req (w, queries)).1.1 ≡ queries)
          ⊎ ((query : Text) × (current : Map Text Text) × (csrf : Text) × (query
                ≡ edit_query current req csrf)
              × ((apply_in (logged h) p req (w, queries)).1.1 ≡ queries ++ query ∷ []))
    apply_in-one_query p req w queries = elim (change-SendsAtMost p req (w, queries)) [
      | inl same ↦ inl same
      | inr (query, (current, csrf, e), sent) ↦ inr (query, current, csrf, e, sent)
    ]

-- ===== src/Controls/Words.antt =====
-- The button "Put aleatório" of infra/dashboard/js/views/controlsView.js. A draw of Math.random() is
-- the number of 2 ^ -53 parts that it returns.
pub mod Draw
use atividade_consenso_raft.Base.{
  ℕ, zero, suc, ◌*◌, ◌/◌, String, Option, none, some, List, [], ◌∷◌, length,
}
use atividade_consenso_raft.World.{World, put}
use atividade_consenso_raft.Controls.{ask}

abbrev pub chaves : List String
chaves =
    "capivara" ∷ "jabuticaba" ∷ "pamonha" ∷ "caipirinha" ∷ "goiabada" ∷ "açaí" ∷ "tapioca"
    ∷ "feijoada" ∷ "brigadeiro" ∷ "cuscuz" ∷ "mandioca" ∷ "guaraná" ∷ "pequi" ∷ "farofa" ∷ "paçoca"
    ∷ "caju" ∷ "mate_gelado" ∷ "pão_de_queijo" ∷ "rapadura" ∷ "beiju" ∷ "macarrão" ∷ "salgadinho"
    ∷ "caldo_de_cana" ∷ "curupira" ∷ "saci" ∷ "iara" ∷ "boto" ∷ "maracanã" ∷ "tarsila" ∷ "machado"
    ∷ []

abbrev pub valores : List String
valores =
    "fervendo" ∷ "descongelado" ∷ "crocante" ∷ "molhado" ∷ "em_brasa" ∷ "gelado" ∷ "morno"
    ∷ "quentinho" ∷ "derretendo" ∷ "congelado" ∷ "azedo" ∷ "doce" ∷ "salgado" ∷ "picante" ∷ "amargo"
    ∷ "fresco" ∷ "amassado" ∷ "inteiro" ∷ "estourado" ∷ "queimado" ∷ "na_panela" ∷ "no_forno"
    ∷ "na_geladeira" ∷ "no_armário" ∷ "sumiu" ∷ "voando" ∷ "pulando" ∷ "dormindo" ∷ "cantando"
    ∷ "reclamando" ∷ []

abbrev pub random_parts : ℕ
random_parts = 9007199254740992

-- `arr[i]`, which is undefined behind the end.
unfoldable pub at? : ℕ → List String → Option String
at? i [] = none
at? zero (x ∷ arr) = some x
at? (suc i) (x ∷ arr) = at? i arr

unfoldable pub pick : ℕ → List String → Option String
unfolding at?
pick random arr = at? (random * length arr / random_parts) arr

-- The draws are those of the key and of the value.
unfoldable pub random_pair : ℕ → ℕ → Option String × Option String
unfolding pick
random_pair random_key random_value = (pick random_key chaves, pick random_value valores)

unfoldable pub put_random : ℕ → ℕ → World → World
unfolding random_pair
put_random random_key random_value w =
    let (key, value) = random_pair random_key random_value in ask (put key value) w

-- ===== src/Organizer/Labels.antt =====
-- organizer.py: the labels that a task's text suggests. A text is its code points; Python's
-- `str.lower`, with its table of Unicode, is a parameter.
use vela_flow_public.Prelude.{ℕ, String, List, [], ◌∷◌, ◌++◌, any, if◌then◌else◌}
use vela_flow_public.Prelude.Text.{codes, is_infix}
use vela_flow_public.Dict.{Dict}

-- `_LABEL_KEYWORDS`
abbrev pub label_keywords : Dict (List String)
label_keywords =
    (
      "Manutenção",
      "arranjar" ∷ "reparar" ∷ "pintar" ∷ "limpar" ∷ "limpeza" ∷ "fixar" ∷ "trocar" ∷ "substituir"
          ∷ "instalar" ∷ "montar" ∷ "desmontar" ∷ "canalização" ∷ "silicone" ∷ "calafetagem"
          ∷ "porta" ∷ "janela" ∷ "cortina" ∷ "estore" ∷ "fechadura" ∷ "lampada" ∷ "lâmpada"
          ∷ "torneira" ∷ "chuveiro" ∷ "wc" ∷ "parede" ∷ "chão" ∷ "teto" ∷ "telhado" ∷ "calha" ∷ [],
    )
    ∷ (
      "Tecnologia",
      "pc" ∷ "computador" ∷ "servidor" ∷ "proxmox" ∷ "docker" ∷ "backup" ∷ "wifi" ∷ "router"
          ∷ "rede" ∷ "cable" ∷ "cabo" ∷ "nas" ∷ "raspberry" ∷ "pi" ∷ "smart" ∷ "automação"
          ∷ "home assistant" ∷ "n8n" ∷ "vpn" ∷ "ssh" ∷ "linux" ∷ "ubuntu" ∷ "debian" ∷ "plex"
          ∷ "app" ∷ "software" ∷ "setup" ∷ "config" ∷ "usb" ∷ "impressora" ∷ "printer" ∷ [],
    )
    ∷ (
      "Finanças",
      "banco" ∷ "seguro" ∷ "imposto" ∷ "irs" ∷ "factura" ∷ "fatura" ∷ "pagamento" ∷ "pagar"
          ∷ "transferir" ∷ "conta" ∷ "crédito" ∷ "hipoteca" ∷ "financiamento" ∷ "subscrição"
          ∷ "subscricao" ∷ "cancelar assinatura" ∷ "mensalidade" ∷ "anuidade" ∷ [],
    )
    ∷ (
      "Burocracia",
      "renovar" ∷ "documento" ∷ "certidão" ∷ "atestado" ∷ "procuração" ∷ "notário" ∷ "conservatória"
          ∷ "finanças" ∷ "registo" ∷ "carta" ∷ "condução" ∷ "cc" ∷ "passaporte" ∷ "nif" ∷ "niss"
          ∷ "segurança social" ∷ "formulário" ∷ "requerimento" ∷ "autoridade" ∷ "câmara" ∷ "junta"
          ∷ [],
    )
    ∷ (
      "Saúde",
      "médico" ∷ "consulta" ∷ "dentista" ∷ "exame" ∷ "análises" ∷ "vacina" ∷ "farmácia" ∷ "receita"
          ∷ "medicamento" ∷ "saúde" ∷ "hospital" ∷ "urgência" ∷ "fisioterapia" ∷ "dermatologista"
          ∷ "oftalmologista" ∷ "máscara" ∷ [],
    )
    ∷ (
      "Lojas",
      "comprar" ∷ "encomendar" ∷ "leroy" ∷ "ikea" ∷ "worten" ∷ "amazon" ∷ "ali express"
          ∷ "aliexpress" ∷ "olx" ∷ "loja" ∷ "supermercado" ∷ "lidl" ∷ "continente" ∷ "pingo"
          ∷ "auchan" ∷ "mercado" ∷ "fnac" ∷ [],
    )
    ∷ (
      "Entretenimento",
      "filme" ∷ "série" ∷ "jogo" ∷ "netflix" ∷ "spotify" ∷ "youtube" ∷ "livro" ∷ "ler" ∷ "podcast"
          ∷ "concerto" ∷ "espetáculo" ∷ "bilhete" ∷ "viagem" ∷ "férias" ∷ "passeio" ∷ "praia"
          ∷ "restaurante" ∷ [],
    )
    ∷ (
      "decoração",
      "decorar" ∷ "vaso" ∷ "planta" ∷ "quadro" ∷ "prateleira" ∷ "estante" ∷ "organizar"
          ∷ "arrumação" ∷ "móvel" ∷ "sofá" ∷ "mesa" ∷ "cadeira" ∷ "tapete" ∷ "almofada"
          ∷ "cortinado" ∷ [],
    )
    ∷ (
      "Família",
      "família" ∷ "mãe" ∷ "pai" ∷ "irmã" ∷ "irmão" ∷ "avó" ∷ "avô" ∷ "sobrinho" ∷ "primo"
          ∷ "casamento" ∷ "aniversário" ∷ "natal" ∷ "páscoa" ∷ "presente" ∷ [],
    )
    ∷ []

-- the loops over the labels and their keywords
unfoldable pub matching : List ℕ → Dict (List String) → List String
matching text [] = []
matching text ((label, keywords) ∷ rest) =
    let others = matching text rest in
    if any (λ k. is_infix (codes k) text) keywords then label ∷ others else others

-- `infer_labels`, of the content and the description
unfoldable pub infer_labels : (List ℕ → List ℕ) → List ℕ → List ℕ → List String
infer_labels lower content description =
    matching (lower (content ++ 32 ∷ description)) label_keywords

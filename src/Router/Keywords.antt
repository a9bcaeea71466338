-- ===== src/Router/Keywords.antt =====
-- The keyword lists of pdf_ingestion/pipeline/schemas/router.py and themes.py.
use smart_pdf_extractor.Prelude.{String, List, [], ◌∷◌, Text, codes}

abbrev pub bank_statement_keywords : List Text
bank_statement_keywords =
    codes "statement"
    ∷ codes "account"
    ∷ codes "balance"
    ∷ codes "debit"
    ∷ codes "credit"
    ∷ codes "transaction"
    ∷ codes "opening balance"
    ∷ codes "closing balance"
    ∷ codes "brought forward"
    ∷ codes "carried forward"
    ∷ codes "sort code"
    ∷ codes "iban"
    ∷ []

abbrev pub custody_statement_keywords : List Text
custody_statement_keywords =
    codes "portfolio"
    ∷ codes "custody"
    ∷ codes "valuation"
    ∷ codes "holdings"
    ∷ codes "positions"
    ∷ codes "isin"
    ∷ codes "securities"
    ∷ codes "market value"
    ∷ codes "net asset"
    ∷ codes "depot"
    ∷ codes "quantity"
    ∷ codes "nominal"
    ∷ []

abbrev pub swift_confirm_keywords : List Text
swift_confirm_keywords =
    codes "swift"
    ∷ codes "mt5"
    ∷ codes "trade confirmation"
    ∷ codes "settlement"
    ∷ codes "counterparty"
    ∷ codes "bic"
    ∷ codes ":20:"
    ∷ codes ":98a:"
    ∷ codes ":35b:"
    ∷ codes ":36b:"
    ∷ codes ":90a:"
    ∷ codes ":95p:"
    ∷ codes "{1:"
    ∷ codes "{4:"
    ∷ []

abbrev pub bank_statement_negative_keywords : List Text
bank_statement_negative_keywords =
    codes "futures"
    ∷ codes "derivative"
    ∷ codes "margin requirement"
    ∷ codes "open trade equity"
    ∷ codes "net liquidating"
    ∷ codes "contract description"
    ∷ codes "exchange delivery"
    ∷ codes "settlement service"
    ∷ codes "settlement summary"
    ∷ codes "acquirer"
    ∷ codes "issuer"
    ∷ codes "visanet"
    ∷ codes "mastercard"
    ∷ codes "interchange"
    ∷ codes "proc date"
    ∷ codes "reporting for"
    ∷ codes "trade settl"
    ∷ codes "instruct a/c"
    ∷ []

abbrev pub custody_statement_negative_keywords : List Text
custody_statement_negative_keywords =
    codes "futures" ∷ codes "margin call" ∷ codes "trade confirmation" ∷ []

abbrev pub swift_confirm_negative_keywords : List Text
swift_confirm_negative_keywords =
    codes "visanet"
    ∷ codes "mastercard"
    ∷ codes "acquirer"
    ∷ codes "issuer"
    ∷ codes "settlement service"
    ∷ codes "settlement summary"
    ∷ codes "proc date"
    ∷ codes "reporting for"
    ∷ codes "interchange"
    ∷ []

abbrev pub cash_bank_keywords : List Text
cash_bank_keywords =
    codes "statement"
    ∷ codes "account"
    ∷ codes "balance"
    ∷ codes "debit"
    ∷ codes "credit"
    ∷ codes "opening balance"
    ∷ codes "closing balance"
    ∷ codes "brought forward"
    ∷ codes "carried forward"
    ∷ codes "sort code"
    ∷ codes "iban"
    ∷ codes "nostro"
    ∷ codes "vostro"
    ∷ []

abbrev pub custody_keywords : List Text
custody_keywords =
    codes "portfolio"
    ∷ codes "custody"
    ∷ codes "valuation"
    ∷ codes "holdings"
    ∷ codes "positions"
    ∷ codes "isin"
    ∷ codes "securities"
    ∷ codes "market value"
    ∷ codes "net asset"
    ∷ codes "depot"
    ∷ codes "quantity"
    ∷ codes "nominal"
    ∷ codes "safekeeping"
    ∷ []

abbrev pub payments_keywords : List Text
payments_keywords =
    codes "giro"
    ∷ codes "payment"
    ∷ codes "remittance"
    ∷ codes "transfer"
    ∷ codes "beneficiary"
    ∷ codes "bank code"
    ∷ codes "branch"
    ∷ codes "particulars"
    ∷ codes "mt103"
    ∷ codes "direct debit"
    ∷ codes "payment advice"
    ∷ codes "credit transfer"
    ∷ []

abbrev pub settlements_keywords : List Text
settlements_keywords =
    codes "swift"
    ∷ codes "mt5"
    ∷ codes "trade confirmation"
    ∷ codes "settlement"
    ∷ codes "counterparty"
    ∷ codes "bic"
    ∷ codes "contract note"
    ∷ codes "settlement instruction"
    ∷ codes "trade date"
    ∷ codes "settlement date"
    ∷ codes ":20:"
    ∷ codes ":35b:"
    ∷ []

abbrev pub corporate_actions_keywords : List Text
corporate_actions_keywords =
    codes "dividend"
    ∷ codes "coupon"
    ∷ codes "corporate action"
    ∷ codes "entitlement"
    ∷ codes "proxy"
    ∷ codes "ex-date"
    ∷ codes "record date"
    ∷ codes "pay date"
    ∷ codes "rights"
    ∷ codes "redemption"
    ∷ []

abbrev pub fees_tax_keywords : List Text
fees_tax_keywords =
    codes "invoice"
    ∷ codes "management fee"
    ∷ codes "fee statement"
    ∷ codes "tax voucher"
    ∷ codes "withholding"
    ∷ codes "vat"
    ∷ codes "billing"
    ∷ codes "charges"
    ∷ codes "net amount due"
    ∷ []

-- THEMES, with the fields that detect_theme reads.
abbrev pub themes : List (String × List Text)
themes =
    ("cash_bank", cash_bank_keywords)
    ∷ ("custody", custody_keywords)
    ∷ ("payments", payments_keywords)
    ∷ ("settlements", settlements_keywords)
    ∷ ("corporate_actions", corporate_actions_keywords)
    ∷ ("fees_tax", fees_tax_keywords)
    ∷ []

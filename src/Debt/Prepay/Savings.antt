-- ===== src/Debt/Prepay/Savings.antt =====
-- What a prepayment saves (optimise.go, `PrepaymentImpact`).
